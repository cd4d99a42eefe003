-- ===== src/Lib.antt =====
-- A verification library for pysubunit, the Python implementation of the subunit protocol.
--
-- The program. A test run is a sequence of calls of StreamResult.status. pysubunit/v2.py writes each
-- call as a packet of bytes (StreamResultToBytes) and reads a stream of packets and other output back
-- into calls (ByteStreamToStreamResult). pysubunit/chunked.py is the HTTP style chunked coding in
-- which version 1 sends attachments. pysubunit/progress_model.py keeps nested progress.
-- pysubunit/test_results.py has the result decorators that keep tags, collapse events, filter
-- and report tests; the commands are chains of these. pysubunit/__init__.py reads and writes version
-- 1 of the protocol, which is made of lines: TestProtocolServer turns lines into calls of a test
-- result, TestProtocolClient turns calls into lines, and pysubunit/details.py reads what an outcome
-- carries. TAP2SubUnit there makes version 2 of a TAP stream, and tag_stream joins the reader and the
-- writer of version 2. pysubunit/_output.py is the command that reports one test, with a file, in
-- version 2. pysubunit/_to_disk.py exports tests to files, and pysubunit/commands/subunit_filter.py
-- filters a stream by outcomes, tags and expressions.
--
-- Files.
--   Prelude      names of the library passed on, Boolean tests, lists, bits, integers.
--   Std          what the source uses of Python's standard library: struct, UTF-8, CRC-32,
--                timedelta, int and the printing of numbers, the methods of bytes and str (Words),
--                a dict (Dict), re.match (Regex), json.dumps (Json).
--   V2           pysubunit/v2.py. Types: the arguments of a status call (StatusEvent), errors and
--                results. Number: _encode_number, _parse_varint, _to_bytes. Flags: the FLAG_ masks,
--                status_mask, status_lookup and the flag word. Writer: _write_packet with its parts
--                (write_body) and its loop on partial writes (write_loop). Fields: the parts of a
--                body in _parse, _read_utf8. Parser: _parse (parse) and _parse_packet. Run: run, with
--                its incremental decoder (feed) and its aggregation of other content (aggregate).
--   Chunked      pysubunit/chunked.py. Encoder: write, flush, close. Decoder: write, close and the
--                three states.
--   Progress     pysubunit/progress_model.py: ProgressModel.
--   Results      pysubunit/test_results.py. Tags: TagsMixin, make_tag_filter and
--                TagCollapsingDecorator (step). Times: TimeCollapsingDecorator (step) on the hooks of
--                HookedTestResultDecorator. Filter: _PredicateFilter (step) and TestResultFilter
--                (filter_of, fixup_call). What they hand to the decorated result is a list of calls.
--                ByTest: TestByTestResult (step), with what it calls on_test with.
--   V1           pysubunit/__init__.py and pysubunit/details.py. Calls: the calls of a test result.
--                Details: SimpleDetailsParser and MultipartDetailsParser (line_received). Server:
--                TestProtocolServer; what lineReceived does is one function of the state and the line
--                (line_step), with Keyword for the command that a line is, and readFrom is read_from.
--                Its result is the calls and the writes in order, and the exception. Client:
--                TestProtocolClient, one function for each method. Replay: ProtocolTestCase.run.
--                Stats: TestResultStats.
--   Output       pysubunit/_output.py: the checks of parse_arguments (check_options), set_status_cb
--                and generate_stream_results.
--   Tagger       pysubunit/__init__.py: tag_stream.
--   Tap          pysubunit/__init__.py: TAP2SubUnit. Lines has its patterns and what it takes of
--                their groups, Emit its variables and the report of a test; a line is one step of
--                the variables (line_step).
--   FilterCommand
--                pysubunit/commands/subunit_filter.py: its options (parse_args) and the predicate of
--                its result (result_predicate).
--   ToDisk       pysubunit/_to_disk.py: _allocate_path; what os.path answers is a parameter. Export:
--                DiskExporter on a disk that is a parameter (Disk), with what it relies on (IsDisk).
--   Tests        runs on concrete inputs.
--
-- How the code is modelled. Bytes and texts are lists of numbers (a text: of code points). What raises
-- an exception returns a Result, with one constructor for each kind. A set of tags is a list without
-- repetitions. A test status is one of the seven keys of status_mask or none; another string
-- (KeyError) cannot be written down. Numbers are naturals with the masks and shifts of the source;
-- seconds and days since 1970 are integers.
--
-- The source of the parser is an in-memory binary stream (io.BytesIO): the list of the bytes not read
-- yet, where a negative count reads all of them. What source.fileno and select answer comes from
-- outside: it is the parameter `polls` of run. The output stream of the writer may take a part of
-- each write: `accepts` answers each write.
--
-- Bounds and fuel. run_loop has fuel, one round for each byte of the source and one for its end, and
-- every round reads a byte; Utf8.decode_loop has fuel, the length of its input, and every round takes
-- a byte. The decoder of chunked.py goes on without a write of its own after each header, and its fuel
-- is the number of buffered bytes and one. The loop of generate_stream_results has fuel, the length of
-- the file and one, as each round takes a byte of the file or ends; that of ProtocolTestCase.run too.
-- In TAP2SubUnit the fuel of missing_loop is the number of tests that are missing.
-- _allocate_path has fuel for its calls of itself and for its probes. The parser of subunit-filter has
-- fuel for five rounds for each option.
--
-- Other code. dateutil's parser (parse_time) and iso8601 stand outside, and so do testtools with its
-- ExtendedToOriginalDecorator, TracebackContent (traceback) and compat._b (latin), the order in which
-- Python walks a set (order), the decimal digits of Unicode (digit), the search of an expression
-- (search), open and the clock: they are parameters, or the model begins behind them. Of optparse, the
-- options of subunit-filter are modelled; the model of _output.py begins behind it.
--
-- Not modelled: the branches for Python 2, memoryview and Windows; make_stream_binary and all other
-- input and output; the other reports of pysubunit/test_results.py; of pysubunit/__init__.py, the
-- tests that run in another process (ExecTestCase, IsolatedTestCase); run.py, filters.py and the
-- other commands, which are input and output around the classes above.
pub mod Prelude
pub mod Std
pub mod V2
pub mod Chunked
pub mod Progress
pub mod Results
pub mod V1
pub mod Output
pub mod Tagger
pub mod Tap
pub mod FilterCommand
pub mod ToDisk
pub mod Tests

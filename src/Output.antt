-- ===== src/Output.antt =====
-- pysubunit/_output.py: the options of subunit-output and the status calls that it makes of them.
pub mod Expected
pub mod Calls
pub mod Streams
pub mod Errors
use pysubunit.Prelude.{
  ℕ, zero, suc, Bool, true, false, Option, none, some, List, [], ◌∷◌, eq_bytes, if◌then◌else◌,
  length, take, drop,
}
use pysubunit.Std.Format.{codes}
use pysubunit.Std.Timedelta.{Timedelta}
use pysubunit.V2.Types.{
  Text, Bytes, TestStatus, exists, inprogress, success, uxsuccess, skip, fail, xfail, StatusEvent,
  add_tag,
}
use pysubunit.Results.Tags.{update}
use pysubunit.V2.Writer.{truthy}

-- What the parser of the command line has found. A tag may come several times.
pub record Options : Type 0 where
  pub action : Option TestStatus
  pub test_id : Option Text
  pub attach_file : Option Text
  pub file_name : Option Text
  pub mimetype : Option Text
  pub tags : List Text

-- An open binary file.
pub record File : Type 0 where
  pub name : Text
  pub content : Bytes

-- `args.attach_file`: a text that is not replaced by a file has no method read.
pub data Attachment : Type 0 where
  no_attachment : Attachment
  opened : File → Attachment
  left_as_text : Text → Attachment

pub record Args : Type 0 where
  pub options : Options
  pub attachment : Attachment

-- parser.error
pub data Checked : Type 0 where
  checked : Args → Checked
  mimetype_without_file file_name_without_file : Checked
  cannot_open : Text → Checked

abbrev pub opened_as : Options → Text → Option Bytes → Checked
opened_as o path none = cannot_open path
opened_as o path (some content) =
    checked
      (record { options = o; attachment = opened (record { name = path; content = content }) })

-- `-` with a name, and without one.
abbrev pub of_stdin : Options → Bytes → Text → Option Text → Checked
of_stdin o stdin stdin_name (some name) =
    checked (record { options = o; attachment = left_as_text (codes "-") })
of_stdin o stdin stdin_name none = checked (record {
  options = record o { file_name = some (codes "stdin") };
  attachment = opened (record { name = stdin_name; content = stdin });
})

-- The end of parse_arguments, for the file to attach, the name for it and the type that are given and
-- not empty.
abbrev pub check_given :
    (Text → Option Bytes)
    → Bytes
    → Text
    → Options
    → Option Text
    → Option Text
    → Option Text
    → Checked
check_given open_file stdin stdin_name o none file_name (some type) = mimetype_without_file
check_given open_file stdin stdin_name o none (some name) none = file_name_without_file
check_given open_file stdin stdin_name o none none none =
    checked (record { options = o; attachment = no_attachment })
check_given open_file stdin stdin_name o (some path) file_name type =
    if eq_bytes path (codes "-")
    then of_stdin o stdin stdin_name file_name
    else opened_as o path (open_file path)

-- `open_file` reads a file of the disk, none for IOError; `stdin_name` is sys.stdin.buffer.name.
unfoldable pub check_options : (Text → Option Bytes) → Bytes → Text → Options → Checked
check_options open_file stdin stdin_name o =
    check_given open_file stdin stdin_name o (truthy o.attach_file) (truthy o.file_name)
      (truthy o.mimetype)

-- set_status_cb, on the words that are left on the command line.
pub data Chosen : Type 0 where
  second_status no_test_id : Chosen
  chosen : Options → List Text → Chosen

abbrev chosen_of : TestStatus → Options → Option TestStatus → List Text → Chosen
chosen_of status o (some action) words = second_status
chosen_of status o none [] = no_test_id
chosen_of status o none (word ∷ words) =
    chosen (record o { action = some status; test_id = some word }) words

abbrev pub set_status_cb : TestStatus → Options → List Text → Chosen
set_status_cb status o words = chosen_of status o o.action words

-- `in _FINAL_ACTIONS`
abbrev pub is_final : Option TestStatus → Bool
is_final none = false
is_final (some inprogress) = false
is_final (some _) = true

-- 3.5 MiB
abbrev pub chunk_size : ℕ
chunk_size = 3670016

-- A call of status without arguments.
abbrev pub bare_call : StatusEvent
bare_call = record {
  test_id = none;
  test_status = none;
  test_tags = none;
  runnable = true;
  file_name = none;
  file_bytes = none;
  eof = false;
  mime_type = none;
  route_code = none;
  timestamp = none;
}

-- set(args.tags), if there are any.
abbrev pub some_tags : List Text → Option (List Text)
some_tags [] = none
some_tags (tag ∷ tags) = some (update [] (tag ∷ tags))

abbrev pub mime_type_of : Args → Option Text → Option Text
mime_type_of args given = elim args.attachment [
  | no_attachment ↦ given
  | opened f ↦ truthy args.options.mimetype
  | left_as_text t ↦ truthy args.options.mimetype
]

-- `if is_first_packet`, which leaves the status of the call as it is if the action is final.
abbrev pub with_first : Bool → Args → Timedelta → StatusEvent → StatusEvent
with_first false args now s = s
with_first true args now s = record s {
  mime_type = mime_type_of args s.mime_type;
  test_tags = some_tags args.options.tags;
  timestamp = some now;
  test_status = if is_final args.options.action then s.test_status else args.options.action;
}

-- `args.file_name or args.attach_file.name`
abbrev or_name : Option (List ℕ) → Text → Text
or_name none name = name
or_name (some given) name = given

abbrev pub with_hunk : Args → File → Bytes → Bool → StatusEvent → StatusEvent
with_hunk args file hunk last s = record s {
  file_name = some (or_name (truthy args.options.file_name) file.name);
  file_bytes = some hunk;
  eof = last;
}

abbrev pub with_test : Args → Bool → StatusEvent → StatusEvent
with_test args last s = record s {
  test_id = truthy args.options.test_id;
  test_status =
      if last
      then (if is_final args.options.action then args.options.action else s.test_status)
      else s.test_status;
}

abbrev pub hunk_call : Args → File → Timedelta → Bool → Bytes → Bool → StatusEvent
hunk_call args file now first hunk last =
    with_test args last (with_hunk args file hunk last (with_first first args now bare_call))

abbrev cons_call : StatusEvent → Option (List StatusEvent) → Option (List StatusEvent)
cons_call s none = none
cons_call s (some ss) = some (s ∷ ss)

-- The loop with a file: `hunk` and `next` are this_file_hunk and next_file_hunk, `rest` is what
-- the file has left. None: out of fuel.
unfoldable pub hunk_loop :
    ℕ → ℕ → Args → File → Timedelta → Bool → Bytes → Bytes → Bytes → Option (List StatusEvent)
hunk_loop size zero args file now first hunk next rest = none
hunk_loop size (suc fuel) args file now first hunk next rest = elim next [
  | [] ↦ some (hunk_call args file now first hunk true ∷ [])
  | c ∷ cs ↦
      cons_call (hunk_call args file now first hunk false)
        (hunk_loop size fuel args file now false (c ∷ cs) (take size rest) (drop size rest))
]

pub data Sent : Type 0 where
  sent : List StatusEvent → Sent
  attribute_error out_of_fuel : Sent

abbrev pub sent_of : Option (List StatusEvent) → Sent
sent_of none = out_of_fuel
sent_of (some ss) = sent ss

-- The two reads before the loop, and the loop.
unfoldable pub attached_calls : ℕ → Args → File → Timedelta → Option (List StatusEvent)
attached_calls size args file now =
    let rest = drop size file.content in
    hunk_loop size (suc (length file.content)) args file now true (take size file.content)
      (take size rest) (drop size rest)

-- generate_stream_results. `now` is what create_timestamp answers.
abbrev pub calls_with : Args → Timedelta → Attachment → Sent
calls_with args now no_attachment =
    sent (with_test args true (with_first true args now bare_call) ∷ [])
calls_with args now (opened file) = sent_of (attached_calls chunk_size args file now)
calls_with args now (left_as_text t) = attribute_error

unfoldable pub generate_stream_results : Args → Timedelta → Sent
generate_stream_results args now = calls_with args now args.attachment

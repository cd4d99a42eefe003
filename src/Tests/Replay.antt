-- ===== src/Tests/Replay.antt =====
-- A stream replayed and counted.
use pysubunit.Prelude.{◌≡◌, refl, [], ◌∷◌, some, ◌==◌}
use pysubunit.Prelude.Int.{pos}
use pysubunit.Std.Format.{codes, decimal}
use pysubunit.V2.Types.{print_int}
use pysubunit.V1.Server
use pysubunit.V1.Server.{Server, read_from}
use pysubunit.V1.Server.Brackets.Order.{calls}
use pysubunit.V1.Client.{text_le}
use pysubunit.V1.Stats.{
  Stats, format_stats, sort_tags, join_tags, passed_tests, was_successful, run,
}
use pysubunit.V1.Stats
use pysubunit.V1.Stats.Counts.{reported_as, is_pass, is_failed, read_from-stats}
use pysubunit.V1.Replay.{replay}
use pysubunit.V1.Replay.Lines.{replay-read_from}
use pysubunit.Tests.Lines.{no_time, cut_stream, cut_stream_no_exception}

replay-read_from_example :
    replay no_time cut_stream ≡ some (read_from no_time cut_stream Server.new)
replay-read_from_example = replay-read_from no_time cut_stream

read_from-stats_example :
    (passed_tests (run Stats.new (calls (read_from no_time cut_stream Server.new).effects))
      ≡ pos (reported_as is_pass (calls (read_from no_time cut_stream Server.new).effects)))
    × (was_successful (run Stats.new (calls (read_from no_time cut_stream Server.new).effects))
        ≡ (reported_as is_failed (calls (read_from no_time cut_stream Server.new).effects) == 0))
read_from-stats_example = read_from-stats no_time cut_stream cut_stream_no_exception

formatted :
    format_stats (record {
      tests_run = 4;
      failed_tests = 1;
      skipped_tests = 1;
      seen_tags = codes "b" ∷ codes "a" ∷ [];
    })
    ≡ codes
        "Total tests:       4\nPassed tests:      2\nFailed tests:      1\nSkipped tests:     1\nSeen tags: a, b\n"
unfolding format_stats print_int decimal sort_tags join_tags text_le
formatted = refl

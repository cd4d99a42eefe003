-- ===== src/Tests/Export.antt =====
-- An export to a disk that is a list of files, all in directories that are there.
use pysubunit.Prelude.{
  ◌≡◌, refl, sym, ap, ◌∙◌, Bool, true, false, Option, none, some, List, [], ◌∷◌, eq_bytes,
  if◌then◌else◌, eq_bytes_refl, eq_bytes_sound,
}
use pysubunit.Std.Format.{codes}
use pysubunit.Std.Json.{print_items}
use pysubunit.V1.Client.{text_le}
use pysubunit.Std.Utf8
use pysubunit.Std.Words.{starts_with}
use pysubunit.V2.Types.{Text, Bytes}
use pysubunit.Chunked.Encoder.{join}
use pysubunit.V1.Stats.{sort_tags}
use pysubunit.ToDisk.{allocate_path, join_path, probe_loop}
use pysubunit.ToDisk.Disk.{Disk, IsDisk, made}
use pysubunit.ToDisk.Export.{TestDict, exported, export, print_summary}
use pysubunit.ToDisk.Export.Kept.{Exported, export-read, export-Exported}

abbrev Files : Type 0
Files = List (Text × Bytes)

abbrev read : Files → Text → Option Bytes
read [] path = none
read ((name, bytes) ∷ files) path = if eq_bytes name path then some bytes else read files path

abbrev is_some : Option Bytes → Bool
is_some none = false
is_some (some bytes) = true

abbrev files_disk : Disk Files
files_disk = record {
  realpath = λ d path. path;
  exists = λ d path. is_some (read d path);
  dirname = λ path. path;
  makedirs = λ d path. (d, made);
  save = λ d path chunks. ((path, join chunks) ∷ d, true);
}

none_of : (o : Option Bytes) → is_some o ≡ false → o ≡ none
none_of none h = refl
none_of (some bytes) h = cc

read-save_other :
    (d : Files) (new path : Text) (more bytes : Bytes)
    → is_some (read d new) ≡ false
    → read d path ≡ some bytes
    → read ((new, more) ∷ d) path ≡ some bytes
read-save_other d new path more bytes h r =
    elim (eq_bytes new path)
        as (λ b. (eq_bytes new path ≡ b) → (if b then some more else read d path) ≡ some bytes) [
          | false ↦ λ e. r
          | true ↦ λ e.
              absurd (
                differ (sym (none_of (read d new) h) ∙ ap (read d) (eq_bytes_sound new path e) ∙ r))
        ]
      refl
  where
    differ : none ≡ some bytes → ⊥
    differ e = cc

files_disk-IsDisk : IsDisk files_disk
files_disk-IsDisk = record {
  read = read;
  read_none = λ d path h. none_of (read d path) h;
  makedirs_keeps = λ d dir path bytes r. r;
  makedirs_beside = λ d sub h. h;
  makedirs_beside_suffixed = λ d sub attempt h. h;
  save_keeps = λ d new path chunks bytes h r. read-save_other d new path (join chunks) bytes h r;
  save_holds = λ d new chunks h. rw (eq_bytes_refl new) refl;
}

abbrev test : TestDict Text
test = record {
  id = codes "a/b";
  tags = codes "slow" ∷ codes "net" ∷ [];
  details = (codes "log", codes "one" ∷ codes "two" ∷ []) ∷ [];
  status = codes "fail";
  start = some (codes "2014-01-01");
  stop = none;
}

abbrev str : Text → Text
str t = t

abbrev before : Files
before = (codes "/r/a/b/log", codes "old") ∷ []

summary :
    print_summary str test
    ≡ codes
        "{\"details\": [\"log\"], \"id\": \"a/b\", \"start\": \"2014-01-01\", \"status\": \"fail\", \"stop\": null, \"tags\": [\"net\", \"slow\"]}"
unfolding sort_tags print_items text_le
summary = refl

went : (export files_disk 2 2 str before (codes "/r") test).outcome ≡ exported
unfolding export allocate_path starts_with join_path eq_bytes probe_loop Utf8.encode
    Utf8.encode_char print_items sort_tags text_le
went = refl

export-read_example :
    read (export files_disk 2 2 str before (codes "/r") test).disk (codes "/r/a/b/log")
    ≡ some (codes "old")
unfolding files_disk-IsDisk eq_bytes
export-read_example =
    export-read files_disk files_disk-IsDisk 2 2 str before (codes "/r") test (codes "/r/a/b/log")
      (codes "old") refl

export-Exported_example :
    Exported files_disk files_disk-IsDisk 2 2 before
      (Utf8.encode (print_summary str test))
      test.details
      (export files_disk 2 2 str before (codes "/r") test).disk
export-Exported_example =
    export-Exported files_disk files_disk-IsDisk 2 2 str before (codes "/r") test went

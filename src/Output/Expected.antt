-- ===== src/Output/Expected.antt =====
-- A first and a last call of subunit-output, without the tests of the loop.
use pysubunit.Prelude.{
  ◌≡◌, refl, ap, ◌∙◌, true, false, Option, none, some, List, [], ◌∷◌, if◌then◌else◌,
}
use pysubunit.Std.Timedelta.{Timedelta}
use pysubunit.V2.Types.{
  Text, Bytes, StatusEvent, TestStatus, exists, inprogress, success, uxsuccess, skip, fail, xfail,
}
use pysubunit.Results.Tags.{update}
use pysubunit.V2.Writer.{truthy}
use pysubunit.Output.{
  mime_type_of, some_tags, with_hunk, with_test, hunk_call, Args, File, opened, bare_call, or_name,
  with_first, is_final,
}

-- A call with one hunk of the file.
abbrev pub plain_call : Args → File → Bytes → StatusEvent
plain_call args file hunk = record bare_call {
  test_id = truthy args.options.test_id;
  file_name = some (or_name (truthy args.options.file_name) file.name);
  file_bytes = some hunk;
}

-- The status that the option names for a test that has ended, or else the one that is there.
abbrev pub ended_status : Option TestStatus → Option TestStatus → Option TestStatus
ended_status none there = there
ended_status (some inprogress) there = there
ended_status (some exists) there = some exists
ended_status (some success) there = some success
ended_status (some uxsuccess) there = some uxsuccess
ended_status (some skip) there = some skip
ended_status (some fail) there = some fail
ended_status (some xfail) there = some xfail

-- The last call has the end of the file, and the status of a test that has ended.
abbrev pub closing : Args → StatusEvent → StatusEvent
closing args s = record s {
  eof = true;
  test_status = ended_status args.options.action s.test_status;
}

-- The status that the option names for a test that goes on.
abbrev pub open_status : Option TestStatus → Option TestStatus
open_status (some inprogress) = some inprogress
open_status _ = none

-- The tags that the options give, as a set.
abbrev pub tag_set : List Text → Option (List Text)
tag_set [] = none
tag_set (t ∷ ts) = some (update [] (t ∷ ts))

-- The first call has the time, the tags, the type, and the status of a test that has not ended.
abbrev pub opening : Args → Timedelta → StatusEvent → StatusEvent
opening args now s = record s {
  timestamp = some now;
  test_tags = tag_set args.options.tags;
  mime_type = truthy args.options.mimetype;
  test_status = open_status args.options.action;
}

first_status :
    (action : Option TestStatus) → (if is_final action then none else action) ≡ open_status action
first_status none = refl
first_status (some exists) = refl
first_status (some inprogress) = refl
first_status (some success) = refl
first_status (some uxsuccess) = refl
first_status (some skip) = refl
first_status (some fail) = refl
first_status (some xfail) = refl

last_status :
    (action there : Option TestStatus)
    → (if is_final action then action else there) ≡ ended_status action there
last_status none there = refl
last_status (some exists) there = refl
last_status (some inprogress) there = refl
last_status (some success) there = refl
last_status (some uxsuccess) there = refl
last_status (some skip) there = refl
last_status (some fail) there = refl
last_status (some xfail) there = refl

some_tags-tag_set : (tags : List Text) → some_tags tags ≡ tag_set tags
some_tags-tag_set [] = refl
some_tags-tag_set (t ∷ ts) = refl

module _ (args : Args) (file : File) (now : Timedelta) where
  abbrev with_status : Option TestStatus → StatusEvent → StatusEvent
  with_status status s = record s { test_status = status }

  pub hunk_call-last :
      (hunk : Bytes)
      → hunk_call args file now false hunk true ≡ closing args (plain_call args file hunk)
  hunk_call-last hunk =
      ap (λ status. with_status status (record (plain_call args file hunk) { eof = true }))
        (last_status args.options.action none)

  module _ (e : args.attachment ≡ opened file) where
    with_first-opening : with_first true args now bare_call ≡ opening args now bare_call
    with_first-opening =
        ap (λ mime_type. record (with_first true args now bare_call) { mime_type = mime_type })
          (ap (λ a. mime_type_of (record args { attachment = a }) none) e)
        ∙ ap
            (λ tags. record (with_first true args now bare_call) {
              mime_type = truthy args.options.mimetype;
              test_tags = tags;
            })
            (some_tags-tag_set args.options.tags)
        ∙ ap (λ status. with_status status (opening args now bare_call))
            (first_status args.options.action)

    pub hunk_call-first :
        (hunk : Bytes)
        → hunk_call args file now true hunk false ≡ opening args now (plain_call args file hunk)
    hunk_call-first hunk =
        ap (λ s. with_test args false (with_hunk args file hunk false s)) with_first-opening

    pub hunk_call-only :
        (hunk : Bytes)
        → hunk_call args file now true hunk true
          ≡ closing args (opening args now (plain_call args file hunk))
    hunk_call-only hunk =
        ap (λ s. with_test args true (with_hunk args file hunk true s)) with_first-opening
        ∙ ap
            (λ status.
              with_status status
                (record (opening args now (plain_call args file hunk)) { eof = true }))
            (last_status args.options.action (open_status args.options.action))

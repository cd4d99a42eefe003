-- ===== src/Output/Streams.antt =====
-- What a reader of subunit-output's stream gets.
use pysubunit.Prelude.{
  ◌≡◌, refl, sym, subst, ap, ◌∙◌, Bool, Option, none, some, List, [], ◌∷◌, ◌++◌, map, All,
}
use pysubunit.Std.Timedelta.{Timedelta, IsNormal}
use pysubunit.V2.Types.{Text, Bytes, StatusEvent, ok}
use pysubunit.V2.Writer.{truthy, write_all}
use pysubunit.V2.Fields.Reads.{NoNul}
use pysubunit.V2.Fields.RoundTrip.{Given, IsSendable, delivered, truthy-Given}
use pysubunit.V2.Run.{run, end_of_file, Trace}
use pysubunit.V2.Run.Packets.{run-write_all}
use pysubunit.Chunked.Encoder.{join}
use pysubunit.Output.{Args, File, opened, sent, or_name, generate_stream_results}
use pysubunit.Results.Tags.Members.{update-All}
use pysubunit.Output.Calls.{calls_of, on_first, on_last, generate-calls}
use pysubunit.Output.Expected.{tag_set, plain_call, closing, opening}

abbrev pub content_of : Option Bytes → Bytes
content_of none = []
content_of (some bs) = bs

-- The bytes of the files of the calls, in order.
unfoldable pub contents : List StatusEvent → Bytes
contents [] = []
contents (s ∷ ss) = content_of s.file_bytes ++ contents ss

-- No text that the command is given holds a character of code 0, and the clock is as datetime has it.
pub record AreSendable (args : Args) (file : File) (now : Timedelta) : Type 0 where
  pub test_id : Given NoNul args.options.test_id
  pub file_name : Given NoNul args.options.file_name
  pub mimetype : Given NoNul args.options.mimetype
  pub tags : All NoNul args.options.tags
  pub name : NoNul file.name
  pub clock : IsNormal now

module _ (args : Args) (file : File) (now : Timedelta) where
  contents-later :
      (hunks : List Bytes)
      → contents (map delivered (on_last (closing args) (map (plain_call args file) hunks)))
        ≡ join hunks
  unfolding contents delivered join
  contents-later [] = refl
  contents-later (h ∷ []) = refl
  contents-later (h ∷ g ∷ hs) = ap (λ bs. h ++ bs) (contents-later (g ∷ hs))

  contents-calls_of :
      (hunks : List Bytes) → contents (map delivered (calls_of args file now hunks)) ≡ join hunks
  unfolding contents delivered join
  contents-calls_of [] = refl
  contents-calls_of (h ∷ []) = refl
  contents-calls_of (h ∷ g ∷ hs) = ap (λ bs. h ++ bs) (contents-later (g ∷ hs))

tag_set-Given : (tags : List Text) → All NoNul tags → Given (All NoNul) (tag_set tags)
tag_set-Given [] n = tt
tag_set-Given (t ∷ ts) n = update-All NoNul [] (t ∷ ts) tt n

or_name-NoNul :
    (o : Option Text) (name : Text) → Given NoNul o → NoNul name → NoNul (or_name o name)
or_name-NoNul none name g n = n
or_name-NoNul (some t) name g n = g

module _ (args : Args) (file : File) (now : Timedelta) (ok_args : AreSendable args file now) where
  plain_call-IsSendable : (hunk : Bytes) → IsSendable (plain_call args file hunk)
  plain_call-IsSendable hunk = record {
    test_id = truthy-Given args.options.test_id ok_args.test_id;
    tags = tt;
    mime_type = tt;
    file_name =
        or_name-NoNul (truthy args.options.file_name) file.name
          (truthy-Given args.options.file_name ok_args.file_name) ok_args.name;
    route_code = tt;
    timestamp = tt;
  }

  opening-IsSendable : (s : StatusEvent) → IsSendable s → IsSendable (opening args now s)
  opening-IsSendable s n = record {
    test_id = n.test_id;
    tags = tag_set-Given args.options.tags ok_args.tags;
    mime_type = truthy-Given args.options.mimetype ok_args.mimetype;
    file_name = n.file_name;
    route_code = n.route_code;
    timestamp = ok_args.clock;
  }

  closing-IsSendable : (s : StatusEvent) → IsSendable s → IsSendable (closing args s)
  closing-IsSendable s n = record {
    test_id = n.test_id;
    tags = n.tags;
    mime_type = n.mime_type;
    file_name = n.file_name;
    route_code = n.route_code;
    timestamp = n.timestamp;
  }

  closed-IsSendable :
      (ss : List StatusEvent) → All IsSendable ss → All IsSendable (on_last (closing args) ss)
  closed-IsSendable [] a = tt
  closed-IsSendable (s ∷ []) (n, a) = (closing-IsSendable s n, tt)
  closed-IsSendable (s ∷ t ∷ ss) (n, a) = (n, closed-IsSendable (t ∷ ss) a)

  plain_calls-IsSendable : (hunks : List Bytes) → All IsSendable (map (plain_call args file) hunks)
  plain_calls-IsSendable [] = tt
  plain_calls-IsSendable (h ∷ hs) = (plain_call-IsSendable h, plain_calls-IsSendable hs)

  opened-IsSendable :
      (hunks : List Bytes)
      → All IsSendable (on_first (opening args now) (map (plain_call args file) hunks))
  opened-IsSendable [] = tt
  opened-IsSendable (h ∷ hs) = (
    opening-IsSendable (plain_call args file h) (plain_call-IsSendable h),
    plain_calls-IsSendable hs,
  )

  calls_of-IsSendable : (hunks : List Bytes) → All IsSendable (calls_of args file now hunks)
  calls_of-IsSendable hunks = closed-IsSendable _ (opened-IsSendable hunks)

sent-injective : {ss ts : List StatusEvent} → sent ss ≡ sent ts → ss ≡ ts
sent-injective h = cc

-- What subunit-output attaches arrives. The calls that it makes of an open file, written by
-- StreamResultToBytes and read by ByteStreamToStreamResult, give a run that ends with the stream and
-- whose file bytes, joined, are the file, if no text of the arguments holds a NUL, the clock is as
-- datetime has it, and the writer accepts the calls.
pub run-generate :
    (args : Args) (file : File) (now : Timedelta) (ss : List StatusEvent) (bs : Bytes)
    (name : Option Text) (polls : Option (List Bool))
    → args.attachment ≡ opened file
    → AreSendable args file now
    → generate_stream_results args now ≡ sent ss
    → write_all ss ≡ ok bs
    → ((run name polls bs).end ≡ end_of_file) × (contents (run name polls bs).events ≡ file.content)
run-generate args file now ss bs name polls e n g w =
    let (hunks, went, h) = generate-calls args file now e in
    let same : ss ≡ calls_of args file now hunks = sent-injective (sym g ∙ went) in
    let ran =
      run-write_all ss bs name polls
        (subst (All IsSendable) (sym same) (calls_of-IsSendable args file now n hunks)) w in
    (
      ap (λ (t : Trace). t.end) ran,
      ap (λ (t : Trace). contents t.events) ran
          ∙ ap (λ ts. contents (map delivered ts)) same
          ∙ contents-calls_of args file now hunks
          ∙ h.joined,
    )

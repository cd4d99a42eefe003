-- ===== src/V2/Fields/RoundTrip.antt =====
-- The whole body: what the parser makes of a status call that the writer accepted.
pub mod Delivered
use pysubunit.Prelude.{
  ℕ, ◌≡◌, sym, subst, ap, ◌∙◌, Option, none, some, List, [], ◌∷◌, ◌++◌, arith, append-nil, All,
}
use pysubunit.Std.Timedelta.{Timedelta, IsNormal}
use pysubunit.V2.Types.{Text, Bytes, StatusEvent, ok}
use pysubunit.V2.Flags.Tests.{IsWordOf}
use pysubunit.V2.Writer.{
  write_timestamp, write_optional, write_tags, write_file, write_body, truthy, present, parts_of,
}
use pysubunit.V2.Fields.{
  Reader, pure, ◌>>=◌, read_utf8, read_timestamp, read_tags, read_file, read_if, read_fields,
  name_of, content_of,
}
use pysubunit.V2.Fields.Reads.{
  Reads, NoNul, Reads-pure, Reads-bind, Reads-utf8, Reads-some, Reads-none,
}
use pysubunit.V2.Fields.Parts.{collect, Reads-timestamp, Reads-tags, Reads-file}

abbrev pub Given {ℓ κ} : {A : Type ℓ} → (A → Type κ) → Option A → Type κ
Given P none = Unit
Given P (some a) = P a

-- What the reader asks of a call: its texts hold no NUL, and its moment is one that Python can make.
pub record IsSendable (s : StatusEvent) : Type 0 where
  pub test_id : Given NoNul s.test_id
  pub tags : Given (All NoNul) s.test_tags
  pub mime_type : Given NoNul s.mime_type
  pub file_name : Given NoNul s.file_name
  pub route_code : Given NoNul s.route_code
  pub timestamp : Given IsNormal s.timestamp

abbrev pub as_set : Option (List Text) → Option (List Text)
as_set none = none
as_set (some ts) = some (collect [] ts)

abbrev file_of : Option Text → Option Bytes → Option (Text × Bytes)
file_of (some name) (some content) = some (name, content)
file_of _ _ = none

-- The call as it arrives: no tags and no MIME type are None, tags are a set, and content goes with
-- a file name.
unfoldable pub delivered : StatusEvent → StatusEvent
delivered s = record s {
  test_tags = as_set (truthy s.test_tags);
  mime_type = truthy s.mime_type;
  file_name = name_of (file_of s.file_name s.file_bytes);
  file_bytes = content_of (file_of s.file_name s.file_bytes);
}

part_timestamp :
    (o : Option Timedelta) (bs : Bytes)
    → Given IsNormal o
    → write_timestamp o ≡ ok bs
    → Reads (read_if (present o) read_timestamp) bs o
part_timestamp none bs n h = unfold write_timestamp in Reads-none read_timestamp bs h
part_timestamp (some t) bs n h = Reads-some _ bs t (Reads-timestamp t bs n h)

part_text :
    (o : Option Text) (bs : Bytes)
    → Given NoNul o
    → write_optional o ≡ ok bs
    → Reads (read_if (present o) read_utf8) bs o
part_text none bs n h = unfold write_optional in Reads-none read_utf8 bs h
part_text (some t) bs n h = Reads-some _ bs t (Reads-utf8 t bs n (unfold write_optional in h))

part_tags :
    (o : Option (List Text)) (bs : Bytes)
    → Given (All NoNul) o
    → write_tags o ≡ ok bs
    → Reads (read_if (present o) read_tags) bs (as_set o)
part_tags none bs n h = unfold write_tags in Reads-none read_tags bs h
part_tags (some ts) bs n h = Reads-some _ bs (collect [] ts) (Reads-tags ts bs n h)

-- The writer refuses a file name with no content.
file_without_content : (name : Text) (bs : Bytes) → write_file (some name) none ≡ ok bs → ⊥
unfolding write_file
file_without_content name bs h = ground arith

part_file :
    (name : Option Text) (content : Option Bytes) (bs : Bytes)
    → Given NoNul name
    → write_file name content ≡ ok bs
    → Reads (read_if (present name) read_file) bs (file_of name content)
part_file none content bs n h = unfold write_file in Reads-none read_file bs h
part_file (some name) none bs n h = absurd (file_without_content name bs h)
part_file (some name) (some content) bs n h =
    Reads-some _ bs (name, content) (Reads-file name content bs n h)

pub truthy-Given : (o : Option Text) → Given NoNul o → Given NoNul (truthy o)
truthy-Given none n = n
truthy-Given (some []) n = tt
truthy-Given (some (c ∷ cs)) n = n

truthy_tags-Given : (o : Option (List Text)) → Given (All NoNul) o → Given (All NoNul) (truthy o)
truthy_tags-Given none n = n
truthy_tags-Given (some []) n = tt
truthy_tags-Given (some (c ∷ cs)) n = n

record Written (s : StatusEvent) (bs : Bytes) : Type 0 where
  a : Bytes
  b : Bytes
  c : Bytes
  d : Bytes
  e : Bytes
  f : Bytes
  timestamp : write_timestamp s.timestamp ≡ ok a
  test_id : write_optional s.test_id ≡ ok b
  tags : write_tags (truthy s.test_tags) ≡ ok c
  mime_type : write_optional (truthy s.mime_type) ≡ ok d
  file : write_file s.file_name s.file_bytes ≡ ok e
  route_code : write_optional s.route_code ≡ ok f
  joined : bs ≡ a ++ (b ++ (c ++ (d ++ (e ++ f))))

write_body-ok : (s : StatusEvent) (bs : Bytes) → write_body s ≡ ok bs → Written s bs
unfolding write_body
write_body-ok s bs h = ground arith

-- The reader with the tests on the flags answered.
abbrev assembled :
    StatusEvent
    → Option Timedelta
    → Option Text
    → Option (List Text)
    → Option Text
    → Option (Text × Bytes)
    → Option Text
    → StatusEvent
assembled s timestamp test_id test_tags mime_type file route_code = record {
  test_id = test_id;
  test_status = s.test_status;
  test_tags = test_tags;
  runnable = s.runnable;
  file_name = name_of file;
  file_bytes = content_of file;
  eof = s.eof;
  mime_type = mime_type;
  route_code = route_code;
  timestamp = timestamp;
}

read_parts : StatusEvent → Reader StatusEvent
read_parts s = do
  timestamp ← read_if (present s.timestamp) read_timestamp
  test_id ← read_if (present s.test_id) read_utf8
  test_tags ← read_if (present (truthy s.test_tags)) read_tags
  mime_type ← read_if (present (truthy s.mime_type)) read_utf8
  file ← read_if (present s.file_name) read_file
  route_code ← read_if (present s.route_code) read_utf8
  pure (assembled s timestamp test_id test_tags mime_type file route_code)

read_fields-parts :
    (s : StatusEvent) (flags : ℕ)
    → IsWordOf (parts_of s) s.test_status flags
    → read_fields flags ≡ read_parts s
unfolding read_fields read_parts parts_of
read_fields-parts s flags w = rw (
  w.timestamp, w.test_id, w.tags, w.mime_type, w.file, w.route_code, w.runnable, w.eof, w.status_of,
)

Reads-parts :
    (s : StatusEvent) (bs : Bytes)
    → IsSendable s
    → Written s bs
    → Reads (read_parts s) bs (delivered s)
unfolding read_parts delivered
Reads-parts s bs n w =
    subst (λ x. Reads (read_parts s) x (delivered s)) (sym whole)
      (Reads-bind _ _ w.a _ s.timestamp _ (part_timestamp s.timestamp w.a n.timestamp w.timestamp) (
        Reads-bind _ _ w.b _ s.test_id _ (part_text s.test_id w.b n.test_id w.test_id) (
          Reads-bind _ _ w.c _ (as_set (truthy s.test_tags)) _
            (part_tags (truthy s.test_tags) w.c (truthy_tags-Given s.test_tags n.tags) w.tags)
            (Reads-bind _ _ w.d _ (truthy s.mime_type) _
              (part_text (truthy s.mime_type) w.d (truthy-Given s.mime_type n.mime_type)
                w.mime_type)
              (Reads-bind _ _ w.e _ (file_of s.file_name s.file_bytes) _
                (part_file s.file_name s.file_bytes w.e n.file_name w.file)
                (Reads-bind _ _ w.f [] s.route_code _
                  (part_text s.route_code w.f n.route_code w.route_code) (Reads-pure _)))))))
  where
    whole : bs ≡ w.a ++ (w.b ++ (w.c ++ (w.d ++ (w.e ++ (w.f ++ [])))))
    whole =
        w.joined
        ∙ ap (λ (t : Bytes). w.a ++ (w.b ++ (w.c ++ (w.d ++ (w.e ++ t))))) (sym (append-nil w.f))

-- Where the body of an accepted call stands, the parser's fields are the call as delivered.
pub Reads-fields :
    (s : StatusEvent) (bs : Bytes) (flags : ℕ)
    → IsSendable s
    → IsWordOf (parts_of s) s.test_status flags
    → write_body s ≡ ok bs
    → Reads (read_fields flags) bs (delivered s)
Reads-fields s bs flags n w h =
    subst (λ r. Reads r bs (delivered s)) (sym (read_fields-parts s flags w))
      (Reads-parts s bs n (write_body-ok s bs h))

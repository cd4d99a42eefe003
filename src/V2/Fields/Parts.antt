-- ===== src/V2/Fields/Parts.antt =====
-- Reading back the timestamp, the tags and the file of a packet.
use pysubunit.Prelude.{
  ℕ, ◌+◌, ◌≡◌, refl, sym, subst, ap, ◌∙◌, some, List, [], ◌∷◌, ◌++◌, arith, append-nil, length, All,
  take-append, ◌<◌, ◌*◌,
}
use pysubunit.Prelude.Int.{ℤ, pos, negsuc, ◌+ℤ◌, ◌*ℤ◌}
use pysubunit.Std.Struct.{word_bytes, pack_32-lt, unpack_32-word_bytes}
use pysubunit.Std.Timedelta.{Timedelta, IsNormal, from_nanoseconds, from_nanoseconds_inverse}
use pysubunit.V2.Types.{Text, Bytes, ok, add_tag}
use pysubunit.V2.Number.{encode_number}
use pysubunit.V2.Writer.{
  write_utf8, write_timestamp, write_each, write_tags, write_file, pack_seconds,
}
use pysubunit.V2.Fields.{
  pure, ◌>>=◌, read_varint, read_utf8, read_word, read_timestamp, read_each, read_tags,
  read_content, read_file,
}
use pysubunit.V2.Fields.Reads.{Reads, NoNul, Reads-pure, Reads-bind, Reads-varint, Reads-utf8}

Reads-word : (n : ℕ) → n < 4294967296 → Reads read_word (word_bytes n) n
unfolding read_word
Reads-word n h = record { at = λ body rest at k. rw k (ground (arith, unpack_32-word_bytes n)) }

pack_seconds-ok :
    (z : ℤ) (bs : Bytes)
    → pack_seconds z ≡ some bs
    → (n : ℕ) × (z ≡ pos n) × (n < 4294967296) × (bs ≡ word_bytes n)
unfolding pack_seconds
pack_seconds-ok (pos n) bs h = let (k, e) = pack_32-lt n bs h in (n, refl, k, e)
pack_seconds-ok (negsuc n) bs h = cc

abbrev total_seconds : Timedelta → ℤ
total_seconds t = pos t.seconds +ℤ t.days *ℤ pos 24 *ℤ pos 3600

write_timestamp-ok :
    (t : Timedelta) (bs : Bytes)
    → write_timestamp (some t) ≡ ok bs
    → (packed : Bytes) × (size : Bytes) × (pack_seconds (total_seconds t) ≡ some packed)
      × (encode_number (t.microseconds * 1000) ≡ ok size)
      × (bs ≡ packed ++ size)
unfolding write_timestamp
write_timestamp-ok t bs h = ground arith

-- Only a moment from the epoch on has a total of seconds that is not negative.
total_seconds-pos :
    (days : ℤ) (seconds n : ℕ)
    → seconds < 86400
    → pos seconds +ℤ days *ℤ pos 24 *ℤ pos 3600 ≡ pos n
    → (d : ℕ) × (days ≡ pos d) × (n ≡ seconds + d * 86400)
unfolding ◌+ℤ◌ ◌*ℤ◌
total_seconds-pos (pos d) seconds n k h = (d, refl, ground arith)
total_seconds-pos (negsuc d) seconds n k h = ground arith

pub Reads-timestamp :
    (t : Timedelta) (bs : Bytes)
    → IsNormal t
    → write_timestamp (some t) ≡ ok bs
    → Reads read_timestamp bs t
unfolding read_timestamp
Reads-timestamp t bs n h =
    let (packed, size, h₁, h₂, e) = write_timestamp-ok t bs h in
    let (s, es, fits, ep) = pack_seconds-ok (total_seconds t) packed h₁ in
    let (d, ed, en) = total_seconds-pos t.days t.seconds s n.seconds_fit es in
    let ns = t.microseconds * 1000 in
    let value : from_nanoseconds s ns ≡ t = rw en (from_nanoseconds_inverse d t ed n) in
    let tail : Reads (read_varint >>= λ m. pure (from_nanoseconds s m)) (size ++ []) t =
      Reads-bind read_varint _ size [] ns t (Reads-varint ns size h₂)
        (subst (λ u. Reads (pure (from_nanoseconds s ns)) [] u) value (Reads-pure _)) in
    subst (λ b. Reads (read_word >>= λ k. read_varint >>= λ m. pure (from_nanoseconds k m)) b t)
      (sym (e ∙ ap (λ p. p ++ size) ep ∙ ap (λ q. word_bytes s ++ q) (sym (append-nil size))))
      (Reads-bind read_word _ (word_bytes s) (size ++ []) s t (Reads-word s fits) tail)

write_each-cons :
    (t : Text) (ts : List Text) (bs : Bytes)
    → write_each (t ∷ ts) ≡ ok bs
    → (x : Bytes) × (y : Bytes) × (write_utf8 t ≡ ok x) × (write_each ts ≡ ok y) × (bs ≡ x ++ y)
unfolding write_each
write_each-cons t ts bs h = ground arith

-- The tags as the parser's set collects them.
unfoldable pub collect : List Text → List Text → List Text
collect tags [] = tags
collect tags (t ∷ ts) = collect (add_tag tags t) ts

write_each-nil : (bs : Bytes) → write_each [] ≡ ok bs → [] ≡ bs
unfolding write_each
write_each-nil bs h = cc

Reads-each :
    (ts tags : List Text) (bs : Bytes)
    → All NoNul ts
    → write_each ts ≡ ok bs
    → Reads (read_each (length ts) tags) bs (collect tags ts)
unfolding read_each collect
Reads-each [] tags bs n h =
    let e : [] ≡ bs = write_each-nil bs h in
    subst (λ b. Reads (pure tags) b tags) e (Reads-pure tags)
Reads-each (t ∷ ts) tags bs n h =
    let (x, y, h₁, h₂, e) = write_each-cons t ts bs h in
    subst
      (λ b.
        Reads (read_utf8 >>= λ tag. read_each (length ts) (add_tag tags tag)) b
          (collect (add_tag tags t) ts))
      (sym e)
      (Reads-bind read_utf8 _ x y t _ (Reads-utf8 t x n.0 h₁)
        (Reads-each ts (add_tag tags t) y n.1 h₂))

write_tags-ok :
    (ts : List Text) (bs : Bytes)
    → write_tags (some ts) ≡ ok bs
    → (x : Bytes) × (y : Bytes) × (encode_number (length ts) ≡ ok x)
      × (write_each ts ≡ ok y)
      × (bs ≡ x ++ y)
unfolding write_tags
write_tags-ok ts bs h = ground arith

pub Reads-tags :
    (ts : List Text) (bs : Bytes)
    → All NoNul ts
    → write_tags (some ts) ≡ ok bs
    → Reads read_tags bs (collect [] ts)
unfolding read_tags
Reads-tags ts bs n h =
    let (x, y, h₁, h₂, e) = write_tags-ok ts bs h in
    subst (λ b. Reads (read_varint >>= λ count. read_each count []) b (collect [] ts)) (sym e)
      (Reads-bind read_varint _ x y (length ts) _ (Reads-varint (length ts) x h₁)
        (Reads-each ts [] y n h₂))

Reads-content : (content : Bytes) → Reads (read_content (length content)) content content
unfolding read_content
Reads-content content = record {
  at = λ body rest at k. rw (k, take-append content rest) (ground arith);
}

write_file-ok :
    (name content : List ℕ) (bs : Bytes)
    → write_file (some name) (some content) ≡ ok bs
    → (x : Bytes) × (y : Bytes) × (write_utf8 name ≡ ok x)
      × (encode_number (length content) ≡ ok y)
      × (bs ≡ x ++ (y ++ (content ++ [])))
unfolding write_file
write_file-ok name content bs h = rw append-nil (ground arith)

pub Reads-file :
    (name content : List ℕ) (bs : Bytes)
    → NoNul name
    → write_file (some name) (some content) ≡ ok bs
    → Reads read_file bs (name, content)
unfolding read_file
Reads-file name content bs n h =
    let (x, y, h₁, h₂, e) = write_file-ok name content bs h in
    subst
      (λ b.
        Reads {A = Text × Bytes}
          (read_utf8 >>= λ file_name. read_varint >>= λ content_length.
            read_content content_length >>= λ file_bytes. pure (file_name, file_bytes))
          b (name, content))
      (sym e)
      (Reads-bind read_utf8 _ x _ name _ (Reads-utf8 name x n h₁) (
        Reads-bind read_varint _ y _ (length content) _ (Reads-varint (length content) y h₂) (
          Reads-bind (read_content (length content)) _ content [] content _ (Reads-content content)
            (Reads-pure (name, content)))))

-- ===== src/V1/Client/Session/Contents.antt =====
-- The lines that the client writes for the details of an outcome.
use pysubunit.Prelude.{
  ℕ, if◌then◌else◌, ◌<◌, ◌≡◌, refl, sym, subst, ap, length, ◌∙◌, true, false, ◌==◌, Option, some,
  List, [], ◌∷◌, ◌++◌, All, All-append, append_assoc, append-nil, arith,
}
use pysubunit.Std.Format.{codes}
use pysubunit.Std.Words.{split_at, split_in_two, cut_at, has_char, lines_from}
use pysubunit.Std.Utf8
use pysubunit.V2.Types.{Text, Bytes}
use pysubunit.Chunked.Encoder.{join, chunk_header}
use pysubunit.Chunked.Encoder.Coded.{coded, close-coded}
use pysubunit.V1.Calls.{Content, Details}
use pysubunit.V1.Client.{
  Output, put, ◌>>◌, put_encoded, sort_items, insert_item, text_le, chunked, print_parameters,
  put_parameters,
}
use pysubunit.V1.Client
use pysubunit.V1.Client.Session.{IsPlainText, IsPlain, full_sub, parameter_part}
use pysubunit.V1.Client.Session.Lines.{
  line_of, OneLine, IsLine, lines_from-IsLine, join-lines_from, join-append_lines,
}

pub encode-ascii : (t : Text) → IsPlainText t → Utf8.encode t ≡ some t
unfolding Utf8.encode Utf8.encode_char
encode-ascii [] a = refl
encode-ascii (c ∷ cs) ((p, n), a) = ground (arith, encode-ascii cs a)

cut_at-char :
    (sep : ℕ) (xs ys : Text)
    → has_char sep xs ≡ false
    → cut_at (λ c. c == sep) (xs ++ sep ∷ ys) ≡ (xs, sep ∷ ys)
unfolding cut_at has_char
cut_at-char sep [] ys h = ground arith
cut_at-char sep (x ∷ xs) ys h = ground (arith, cut_at-char sep xs ys)

pub split_in_two-plain :
    (sep : ℕ) (xs ys : Text)
    → has_char sep xs ≡ false
    → has_char sep ys ≡ false
    → split_in_two sep (xs ++ sep ∷ ys) ≡ some (xs, ys)
unfolding split_in_two split_at
split_in_two-plain sep xs ys h k = rw (cut_at-char sep xs ys h, k)

abbrev pub type_text : Content → Text
type_text c = codes "Content-Type: " ++ (c.main ++ (codes "/" ++ full_sub c))

abbrev pub item_lines : Text × Content → List Bytes
item_lines item =
    line_of (type_text item.1) ∷ line_of item.0 ∷ lines_from [] (chunked item.1.chunks)

abbrev pub all_lines : Details → List Bytes
all_lines [] = []
all_lines (item ∷ items) = item_lines item ++ all_lines items

coded-line : (cs : List Bytes) → (x : Bytes) × (coded cs ≡ line_of x)
unfolding coded
coded-line [] = (codes "0\r", refl)
coded-line (c ∷ cs) =
    let (x, e) = coded-line cs in
    let header = chunk_header (length c) in
    (header ++ (c ++ x), ap (λ z. header ++ (c ++ z)) e ∙ simp (append_assoc))

pub chunked-IsLine : (chunks : List Bytes) → All IsLine (lines_from [] (chunked chunks))
unfolding chunked
chunked-IsLine chunks =
    let (cs, _, _, e) = close-coded chunks in
    let (x, f) = coded-line cs in
    subst (λ bs. All IsLine (lines_from [] bs)) (sym (e ∙ f)) (lines_from-IsLine x [] tt)

plain-OneLine : (t : Text) → IsPlainText t → OneLine t
plain-OneLine [] a = tt
plain-OneLine (c ∷ cs) ((p, n), a) = (n, plain-OneLine cs a)

pub type_text-IsPlainText : (item : Text × Content) → IsPlain item → IsPlainText (type_text item.1)
type_text-IsPlainText item p = All-append _ (codes "Content-Type: ") _ (omega arith) (
    All-append _ item.1.main _ p.plain_main
      (All-append _ (codes "/") (full_sub item.1) (omega arith) p.plain_sub))

pub all_lines-IsLine : (ds : Details) → All IsPlain ds → All IsLine (all_lines ds)
all_lines-IsLine [] a = tt
all_lines-IsLine (item ∷ items) (p, a) =
    All-append IsLine (item_lines item) (all_lines items)
      (
        (type_text item.1, refl, plain-OneLine (type_text item.1) (type_text-IsPlainText item p)),
        ((item.0, refl, plain-OneLine item.0 p.plain_name), chunked-IsLine item.1.chunks),
      )
      (all_lines-IsLine items a)

-- Sorting keeps what holds of each item.
insert_item-All :
    (P : Text × Content → Type 0) (item : Text × Content) (ds : Details)
    → P item
    → All P ds
    → All P (insert_item item ds)
unfolding insert_item
insert_item-All P item [] p a = (p, tt)
insert_item-All P item (other ∷ ds) p (q, a) =
    elim (text_le item.0 other.0)
      as (λ b. All P (if b then item ∷ other ∷ ds else other ∷ insert_item item ds)) [
        | true ↦ (p, (q, a))
        | false ↦ (q, insert_item-All P item ds p a)
      ]

pub sort_items-All : (P : Text × Content → Type 0) (ds : Details) → All P ds → All P (sort_items ds)
unfolding sort_items
sort_items-All P [] a = tt
sort_items-All P (item ∷ ds) (p, a) =
    insert_item-All P item (sort_items ds) p (sort_items-All P ds a)

-- `latin` on ASCII.
abbrev pub KeepsAscii : (Text → Option Bytes) → Type 0
KeepsAscii latin = (t : Text) → All (λ c. c < 128) t → latin t ≡ some t

ascii : (t : Text) → IsPlainText t → All (λ c. c < 128) t
ascii [] a = tt
ascii (c ∷ cs) ((p, n), a) = (p, ascii cs a)

All-front : (xs ys : Text) → IsPlainText (xs ++ ys) → IsPlainText xs
All-front [] ys a = tt
All-front (x ∷ xs) ys (p, a) = (p, All-front xs ys a)

All-back : (xs ys : Text) → IsPlainText (xs ++ ys) → IsPlainText ys
All-back [] ys a = a
All-back (x ∷ xs) ys (p, a) = All-back xs ys a

join-item_lines :
    (item : Text × Content)
    → join (item_lines item)
      ≡ line_of (type_text item.1) ++ (line_of item.0 ++ chunked item.1.chunks)
unfolding join
join-item_lines item =
    ap (λ bs. line_of (type_text item.1) ++ (line_of item.0 ++ bs))
      (join-lines_from (chunked item.1.chunks) [])

module _ {Err : Type 0} (latin : Text → Option Bytes) (traceback : Err → Text → List Bytes)
    (keeps : KeepsAscii latin) where
  latin-plain : (t : Text) → IsPlainText t → latin t ≡ some t
  latin-plain t a = keeps t (ascii t a)

  latin-name :
      (name : Text)
      → IsPlainText name
      → latin (codes "\n" ++ (name ++ codes "\n")) ≡ some (codes "\n" ++ (name ++ codes "\n"))
  latin-name name a =
      keeps (codes "\n" ++ (name ++ codes "\n"))
        (omega arith, All-append (λ c. c < 128) name (codes "\n") (ascii name a) (omega arith))

  type-put :
      (m t : Text) (ps : List (Text × Text)) (rest : Bytes)
      → IsPlainText (codes "Content-Type: " ++ (m ++ (codes "/" ++ (t ++ parameter_part ps))))
      → put_encoded (latin (codes "Content-Type: " ++ (m ++ (codes "/" ++ t))))
          >> put_parameters latin traceback ps
          >> put rest
        ≡ put ((codes "Content-Type: " ++ (m ++ (codes "/" ++ (t ++ parameter_part ps)))) ++ rest)
  unfolding ◌>>◌
  type-put m t [] rest a =
      let front = codes "Content-Type: " ++ (m ++ (codes "/" ++ t)) in
      let whole : codes "Content-Type: " ++ (m ++ (codes "/" ++ (t ++ []))) ≡ front =
        simp (append-nil) in
      rw (latin-plain front (subst IsPlainText whole a)) (ap (λ x. put (x ++ rest)) (sym whole))
  type-put m t (q ∷ qs) rest a =
      let front = codes "Content-Type: " ++ (m ++ (codes "/" ++ t)) in
      let printed = print_parameters (q ∷ qs) in
      let whole : codes "Content-Type: " ++ (m ++ (codes "/" ++ (t ++ (codes ";" ++ printed))))
          ≡ front ++ (codes ";" ++ printed) =
        simp (append_assoc) in
      let plain = subst IsPlainText whole a in
      rw
        (
          latin-plain front (All-front front (codes ";" ++ printed) plain),
          latin-plain printed (All-back front (codes ";" ++ printed) plain).1,
        )
        (ap put (simp (append_assoc)))

  write_content-lines :
      (item : Text × Content)
      → IsPlain item
      → Client.write_content latin traceback item.0 item.1 ≡ put (join (item_lines item))
  unfolding Client.write_content ◌>>◌
  write_content-lines item p =
      let c = item.1 in
      let rest = codes "\n" ++ (item.0 ++ codes "\n") ++ chunked c.chunks in
      let regrouped : type_text c ++ rest
          ≡ line_of (type_text c) ++ (line_of item.0 ++ chunked c.chunks) =
        simp (append_assoc) in
      rw (latin-name item.0 p.plain_name) (
        type-put c.main c.sub c.parameters rest (type_text-IsPlainText item p)
        ∙ ap put (regrouped ∙ sym (join-item_lines item)))

  pub write_items-lines :
      (ds : Details)
      → All IsPlain ds
      → Client.write_items latin traceback ds ≡ put (join (all_lines ds))
  unfolding Client.write_items ◌>>◌ join
  write_items-lines [] a = refl
  write_items-lines (item ∷ ds) (p, a) =
      rw (write_content-lines item p, write_items-lines ds a)
        (ap put (sym (join-append_lines (item_lines item) (all_lines ds))))

-- ===== src/Output/Calls.antt =====
-- The calls of subunit-output against a list of the hunks.
use pysubunit.Prelude.{
  ℕ, zero, suc, ◌+◌, ◌≤◌, ◌<◌, ◌≡◌, refl, sym, ap, ◌∙◌, true, false, some, List, [], ◌∷◌, ◌++◌, map,
  All, length, take, drop, length-take, length-drop, take-append-drop, arith,
}
use pysubunit.Std.Timedelta.{Timedelta}
use pysubunit.V2.Types.{Bytes, StatusEvent}
use pysubunit.Chunked.Encoder.{join}
use pysubunit.Output.{
  Args, File, opened, sent, sent_of, hunk_loop, attached_calls, chunk_size, calls_with,
  generate_stream_results,
}
use pysubunit.Output.Expected.{
  plain_call, closing, opening, hunk_call-first, hunk_call-last, hunk_call-only,
}

module _ {ℓ} {A : Type ℓ} where
  abbrev pub on_first : (A → A) → List A → List A
  on_first f [] = []
  on_first f (x ∷ xs) = f x ∷ xs

  abbrev pub on_last : (A → A) → List A → List A
  on_last f [] = []
  on_last f (x ∷ []) = f x ∷ []
  on_last f (x ∷ y ∷ xs) = x ∷ on_last f (y ∷ xs)

abbrev pub calls_of : Args → File → Timedelta → List Bytes → List StatusEvent
calls_of args file now hunks =
    on_last (closing args) (on_first (opening args now) (map (plain_call args file) hunks))

-- The hunks of a file: the file in order, none longer than `size`, and none empty but the one of an
-- empty file.
pub record AreHunks (size : ℕ) (content : Bytes) (hunks : List Bytes) : Type 0 where
  pub joined : join hunks ≡ content
  pub fit : All (λ h. length h ≤ size) hunks
  pub full : 0 < length content → All (λ h. 0 < length h) hunks
  pub count : 0 < length hunks

abbrev IsHunk : ℕ → Bytes → Type 0
IsHunk size h = (0 < length h) × (length h ≤ size)

All-fst : (P Q : Bytes → Type 0) (hs : List Bytes) → All (λ h. P h × Q h) hs → All P hs
All-fst P Q [] a = tt
All-fst P Q (h ∷ hs) (p, a) = (p.0, All-fst P Q hs a)

All-snd : (P Q : Bytes → Type 0) (hs : List Bytes) → All (λ h. P h × Q h) hs → All Q hs
All-snd P Q [] a = tt
All-snd P Q (h ∷ hs) (p, a) = (p.1, All-snd P Q hs a)

length-nil : (bs : Bytes) → length bs ≡ 0 → bs ≡ []
length-nil [] e = refl
length-nil (b ∷ bs) e = absurd (omega arith)

take-fits : (size : ℕ) (bs : Bytes) → length (take size bs) ≤ size
take-fits size bs = omega (arith, length-take size bs)

-- A read that gives nothing has left nothing.
read_nothing : (size : ℕ) (bs : Bytes) → 0 < size → length (take size bs) ≡ 0 → length bs ≡ 0
read_nothing size bs p e = omega (arith, length-take size bs)

module _ (args : Args) (file : File) (now : Timedelta) where
  hunk_loop-later :
      (size fuel : ℕ) (hunk next rest : Bytes)
      → 0 < size
      → length next ≤ size
      → (length next ≡ 0 → length rest ≡ 0)
      → length next + length rest < fuel
      → (hunks : List Bytes) × (hunk_loop size fuel args file now false hunk next rest
          ≡ some (on_last (closing args) (map (plain_call args file) (hunk ∷ hunks))))
        × (join hunks ≡ next ++ rest)
        × All (IsHunk size) hunks
  unfolding hunk_loop join
  hunk_loop-later size zero hunk next rest p f e k = absurd (omega arith)
  hunk_loop-later size (suc fuel) hunk [] rest p f e k = (
    [],
    ap (λ s. some (s ∷ [])) (hunk_call-last args file now hunk),
    sym (length-nil rest (e refl)),
    tt,
  )
  hunk_loop-later size (suc fuel) hunk (c ∷ cs) rest p f e k =
      let (hunks, went, joined, a) =
        hunk_loop-later size fuel (c ∷ cs) (take size rest) (drop size rest) p (take-fits size rest)
          (λ z. omega (arith, length-drop size rest, read_nothing size rest p z))
          (omega (arith, length-take size rest, length-drop size rest)) in
      (
        (c ∷ cs) ∷ hunks,
        rw went,
        ap (λ bs. (c ∷ cs) ++ bs) (joined ∙ take-append-drop size rest),
        ((omega arith, f), a),
      )

  -- The same of the first call, with the two reads before the loop.
  hunk_loop-first :
      args.attachment ≡ opened file
      → (size fuel : ℕ) (hunk next rest : Bytes) → 0 < size
      → length next ≤ size
      → (length next ≡ 0 → length rest ≡ 0)
      → length next + length rest < fuel
      → (hunks : List Bytes) × (hunk_loop size fuel args file now true hunk next rest
          ≡ some (calls_of args file now (hunk ∷ hunks)))
        × (join hunks ≡ next ++ rest)
        × All (IsHunk size) hunks
  unfolding hunk_loop join
  hunk_loop-first a size zero hunk next rest p f e k = absurd (omega arith)
  hunk_loop-first a size (suc fuel) hunk [] rest p f e k = (
    [],
    ap (λ s. some (s ∷ [])) (hunk_call-only args file now a hunk),
    sym (length-nil rest (e refl)),
    tt,
  )
  hunk_loop-first a size (suc fuel) hunk (c ∷ cs) rest p f e k =
      let (hunks, went, joined, b) =
        hunk_loop-later size fuel (c ∷ cs) (take size rest) (drop size rest) p (take-fits size rest)
          (λ z. omega (arith, length-drop size rest, read_nothing size rest p z))
          (omega (arith, length-take size rest, length-drop size rest)) in
      (
        (c ∷ cs) ∷ hunks,
        rw (went, hunk_call-first args file now a hunk),
        ap (λ bs. (c ∷ cs) ++ bs) (joined ∙ take-append-drop size rest),
        ((omega arith, f), b),
      )

  attached_calls-hunks :
      args.attachment ≡ opened file
      → (size : ℕ) → 0 < size
      → (hunks : List Bytes) × (attached_calls size args file now
          ≡ some (calls_of args file now hunks))
        × AreHunks size file.content hunks
  unfolding attached_calls join
  attached_calls-hunks e size p =
      let bs = file.content in
      let rest = drop size bs in
      let (hunks, went, joined, a) =
        hunk_loop-first e size (suc (length bs)) (take size bs) (take size rest) (drop size rest) p
          (take-fits size rest)
          (λ z. omega (arith, length-drop size rest, read_nothing size rest p z))
          (omega (arith, length-take size rest, length-drop size rest, length-drop size bs)) in
      (
        take size bs ∷ hunks,
        went,
        record {
          joined =
              ap (λ cs. take size bs ++ cs) (joined ∙ take-append-drop size rest)
              ∙ take-append-drop size bs;
          fit = (take-fits size bs, All-snd (λ h. 0 < length h) (λ h. length h ≤ size) hunks a);
          full = λ q. (
            omega (arith, length-take size bs),
            All-fst (λ h. 0 < length h) (λ h. length h ≤ size) hunks a,
          );
          count = omega arith;
        },
      )

-- With an open file, one call of status is made for each hunk of up to 3.5 MiB, and at least one. The
-- hunks joined are the file, and none is empty unless the file is. All the calls name the test and the
-- file. The first one alone has the time, the tags, the type and a status that is not final; the last
-- one alone has the end of the file and a status that is final. The loop ends.
pub generate-calls :
    (args : Args) (file : File) (now : Timedelta)
    → args.attachment ≡ opened file
    → (hunks : List Bytes) × (generate_stream_results args now
        ≡ sent (calls_of args file now hunks))
      × AreHunks chunk_size file.content hunks
unfolding generate_stream_results
generate-calls args file now e =
    let (hunks, went, h) = attached_calls-hunks args file now e chunk_size (omega arith) in
    (hunks, ap (calls_with args now) e ∙ ap sent_of went, h)

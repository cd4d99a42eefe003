-- ===== src/V2/Run/Packets.antt =====
-- Streams that the writer made, with ASCII text between the packets or without.
use pysubunit.Prelude.{
  ℕ, zero, suc, ◌+◌, ◌≤◌, ◌<◌, ◌≡◌, sym, subst, ap, ◌∙◌, Bool, Option, none, some, List, [], ◌∷◌,
  ◌++◌, map, arith, length, length-append, All,
}
use pysubunit.Std.Utf8
use pysubunit.V2.Types.{Text, Bytes, StatusEvent, ok, Result, ◌>>=◌, ok-injective}
use pysubunit.V2.Writer.{write_packet, write_all}
use pysubunit.V2.Writer.Shape.{write_packet-Packet}
use pysubunit.V2.Fields.RoundTrip.{IsSendable, delivered}
use pysubunit.V2.Parser.{parse_packet}
use pysubunit.V2.Parser.RoundTrip.{parse-write_packet}
use pysubunit.V2.Run.{
  fresh, feed, Trace, end_of_file, emit, run_packet, run_content, run_gathered, run_loop, run,
  aggregate, non_subunit,
}

-- One packet from the front of a stream.
run_loop-packet :
    (s : StatusEvent) (bs rest : Bytes) (fuel : ℕ) (name : Option Text) (polls : Option (List Bool))
    → IsSendable s
    → write_packet s ≡ ok bs
    → run_loop (suc fuel) name fresh polls (bs ++ rest)
      ≡ emit (delivered s ∷ []) (run_loop fuel name fresh polls rest)
unfolding run_loop run_packet parse_packet
run_loop-packet s bs rest fuel name polls n h =
    let (tl, e, parsed) = parse-write_packet s bs n h in rw (e, parsed rest)

-- One ASCII character, read on its own.
feed_ascii : (b : ℕ) → b < 128 → feed fresh b ≡ fresh
unfolding feed Utf8.decode Utf8.decode_loop Utf8.front
feed_ascii b h = ground arith

run_loop-character :
    (b : ℕ) (rest : Bytes) (fuel : ℕ) (label : Text)
    → b < 128
    → run_loop (suc fuel) (some label) fresh none (b ∷ rest)
      ≡ emit (non_subunit label (b ∷ []) ∷ []) (run_loop fuel (some label) fresh none rest)
unfolding run_loop run_content run_gathered aggregate
run_loop-character b rest fuel label h = ground (arith, feed_ascii b)

-- What a client may write: status calls, and in between text of its own.
pub data Item : Type 0 where
  call : StatusEvent → Item
  text : Bytes → Item

abbrev pub IsClean : Item → Type 0
IsClean (call s) = IsSendable s
IsClean (text bs) = All (λ b. b < 128) bs

unfoldable pub write_item : Item → Result Bytes
write_item (call s) = write_packet s
write_item (text bs) = ok bs

unfoldable pub write_items : List Item → Result Bytes
write_items [] = ok []
write_items (i ∷ is) = do first ← write_item i; rest ← write_items is; ok (first ++ rest)

-- What should arrive: each call as delivered, each character of a text as a file event.
unfoldable pub received : Text → List Item → List StatusEvent
received label [] = []
received label (call s ∷ is) = delivered s ∷ received label is
received label (text bs ∷ is) = map (λ b. non_subunit label (b ∷ [])) bs ++ received label is

abbrev finished : List StatusEvent → Trace
finished es = record { events = es; end = end_of_file }

run_loop-text :
    (bs rest : Bytes) (fuel : ℕ) (label : Text) (es : List StatusEvent)
    → All (λ b. b < 128) bs
    → length bs + length rest < fuel
    → ((k : ℕ) → length rest < k → run_loop k (some label) fresh none rest ≡ finished es)
    → run_loop fuel (some label) fresh none (bs ++ rest)
      ≡ finished (map (λ b. non_subunit label (b ∷ [])) bs ++ es)
run_loop-text [] rest fuel label es a k h = h fuel (omega arith)
run_loop-text (b ∷ bs) rest zero label es a k h = absurd (omega arith)
run_loop-text (b ∷ bs) rest (suc fuel) label es a k h =
    run_loop-character b (bs ++ rest) fuel label a.0
    ∙ ap (emit (non_subunit label (b ∷ []) ∷ []))
        (run_loop-text bs rest fuel label es a.1 (omega arith) h)

write_items-cons :
    (i : Item) (is : List Item) (bs : Bytes)
    → write_items (i ∷ is) ≡ ok bs
    → (x : Bytes) × (y : Bytes) × (write_item i ≡ ok x) × (write_items is ≡ ok y) × (bs ≡ x ++ y)
unfolding write_items
write_items-cons i is bs h = ground arith

write_all-cons :
    (s : StatusEvent) (ss : List StatusEvent) (bs : Bytes)
    → write_all (s ∷ ss) ≡ ok bs
    → (x : Bytes) × (y : Bytes) × (write_packet s ≡ ok x) × (write_all ss ≡ ok y) × (bs ≡ x ++ y)
unfolding write_all
write_all-cons s ss bs h = ground arith

write_packet_not_empty : (s : StatusEvent) (bs : Bytes) → write_packet s ≡ ok bs → 1 ≤ length bs
write_packet_not_empty s bs h =
    let p = write_packet-Packet s bs h in omega (arith, ap length p.joined)

run_loop-items :
    (is : List Item) (bs : Bytes) (fuel : ℕ) (label : Text)
    → All IsClean is
    → write_items is ≡ ok bs
    → length bs < fuel
    → run_loop fuel (some label) fresh none bs ≡ finished (received label is)
unfolding received
run_loop-items is bs zero label c h k = absurd (omega arith)
run_loop-items [] bs (suc fuel) label c h k = unfold write_items run_loop in ground arith
run_loop-items (text t ∷ is) bs (suc fuel) label c h k =
    let (x, y, ex, ey, e) = write_items-cons (text t) is bs h in
    let et : t ≡ x = unfold write_item in ok-injective ex in
    let split : bs ≡ t ++ y = e ∙ ap (λ u. u ++ y) (sym et) in
    subst
      (λ (b : Bytes).
        run_loop (suc fuel) (some label) fresh none b ≡ finished (received label (text t ∷ is)))
      (sym split)
      (run_loop-text t y (suc fuel) label (received label is) c.0
        (omega (arith, ap length split, length-append t y))
        (λ f hf. run_loop-items is y f label c.1 ey hf))
run_loop-items (call s ∷ is) bs (suc fuel) label c h k =
    let (x, y, ex, ey, e) = write_items-cons (call s) is bs h in
    let ex' : write_packet s ≡ ok x = unfold write_item in ex in
    subst
      (λ (b : Bytes).
        run_loop (suc fuel) (some label) fresh none b ≡ finished (received label (call s ∷ is)))
      (sym e)
      (run_loop-packet s x y fuel (some label) none c.0 ex'
        ∙ ap (emit (delivered s ∷ [])) (
            run_loop-items is y fuel label c.1 ey
              (omega (arith, write_packet_not_empty s x ex', ap length e, length-append x y))))

-- Calls (with texts without NUL and a normalised timestamp) and ASCII text written one after another
-- arrive in their order, each call as delivered and each character of the text as a file event under
-- the given name. A call need not stand behind a newline or another call: it is read right behind the
-- text too. The stream is one that select does not serve.
pub run-write_items :
    (is : List Item) (bs : Bytes) (label : Text)
    → All IsClean is
    → write_items is ≡ ok bs
    → run (some label) none bs ≡ record { events = received label is; end = end_of_file }
unfolding run
run-write_items is bs label c h = run_loop-items is bs (suc (length bs)) label c h (omega arith)

run_loop-write_all :
    (ss : List StatusEvent) (bs : Bytes) (fuel : ℕ) (name : Option Text)
    (polls : Option (List Bool))
    → All IsSendable ss
    → write_all ss ≡ ok bs
    → length bs < fuel
    → run_loop fuel name fresh polls bs ≡ finished (map delivered ss)
run_loop-write_all ss bs zero name polls n h k = absurd (omega arith)
run_loop-write_all [] bs (suc fuel) name polls n h k = unfold write_all run_loop in ground arith
run_loop-write_all (s ∷ ss) bs (suc fuel) name polls n h k =
    let (x, y, ex, ey, e) = write_all-cons s ss bs h in
    subst
      (λ (b : Bytes). run_loop (suc fuel) name fresh polls b ≡ finished (map delivered (s ∷ ss)))
      (sym e)
      (run_loop-packet s x y fuel name polls n.0 ex
        ∙ ap (emit (delivered s ∷ [])) (
            run_loop-write_all ss y fuel name polls n.1 ey
              (omega (arith, write_packet_not_empty s x ex, ap length e, length-append x y))))

-- A run over what StreamResultToBytes wrote for a list of status calls (each with a test id, tags,
-- mime type, file name and route code without NUL, and a normalised timestamp) makes exactly those
-- calls, as delivered and in their order, and ends at the end of the file, whatever name is given to
-- other content and whatever select answers.
pub run-write_all :
    (ss : List StatusEvent) (bs : Bytes) (name : Option Text) (polls : Option (List Bool))
    → All IsSendable ss
    → write_all ss ≡ ok bs
    → run name polls bs ≡ record { events = map delivered ss; end = end_of_file }
unfolding run
run-write_all ss bs name polls n h =
    run_loop-write_all ss bs (suc (length bs)) name polls n h (omega arith)

-- ===== src/V2/Parser/Source.antt =====
-- A parse only ever takes bytes from the front of the source.
use pysubunit.Prelude.{
  ℕ, ◌-◌, ◌≤◌, ◌≡◌, arith, length, length-drop, true, inl, inr, drop, take, ◌==◌, Bool-cases, refl,
}
use pysubunit.Std.Struct.{unpack_16}
use pysubunit.V2.Types.{Bytes, StatusEvent, Result, ok, err, or_raise, struct_error, parse_error}
use pysubunit.V2.Number.{parse_varint}
use pysubunit.V2.Parser.{parse, parse_rest, parse_packet, with_flags, with_length, handle}

parse_rest-source :
    (flags : ℕ) (header source : Bytes) (p : ℕ × ℕ)
    → length (parse_rest flags header source p).source ≤ length source
unfolding parse_rest
parse_rest-source flags header source p = ground (arith, length-drop (p.0 - 6) source)

with_length-source :
    (header source : Bytes) (flags : ℕ) (r : Result (ℕ × ℕ))
    → length (with_length header source flags r).source ≤ length source
with_length-source header source flags (ok p) = parse_rest-source flags header source p
with_length-source header source flags (err e) = omega arith

with_flags-source :
    (header source : Bytes) (r : Result ℕ)
    → length (with_flags header source r).source ≤ length source
with_flags-source header source (ok flags) =
    with_length-source header source flags (parse_varint true header 2)
with_flags-source header source (err e) = omega arith

pub parse-source : (source : Bytes) → length (parse source).source ≤ length source
unfolding parse
parse-source source = elim (Bool-cases (length (take 5 source) == 5)) [
  | inl e ↦ rw e (
      omega (
        arith,
        with_flags-source (take 5 source) (drop 5 source)
            (or_raise struct_error (unpack_16 (take 2 (take 5 source)))),
        length-drop 5 source,
      ))
  | inr e ↦ rw e (omega (arith, length-drop 5 source))
]

handle-source :
    (packet source : Bytes) (r : Result StatusEvent) → (handle packet source r).source ≡ source
handle-source packet source (ok s) = refl
handle-source packet source (err (parse_error e)) = refl
handle-source packet source (err struct_error) = refl
handle-source packet source (err _) = refl

pub parse_packet-source : (source : Bytes) → length (parse_packet source).source ≤ length source
unfolding parse_packet
parse_packet-source source =
    rw (handle-source (parse source).packet (parse source).source (parse source).outcome)
      (parse-source source)

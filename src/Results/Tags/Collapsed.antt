-- ===== src/Results/Tags/Collapsed.antt =====
-- What TagCollapsingDecorator passes on.
use pysubunit.Prelude.{
  ◌≡◌, sym, ◌∙◌, false, not, ◌&&◌, ◌||◌, none, List, [], ◌∷◌, ◌++◌, append_assoc, All, arith,
}
use pysubunit.V2.Types.{Text, contains}
use pysubunit.Results.Tags.{
  Scope, empty, TagCall, Call, event, update, difference, change, change_tags, clear_tags,
  non_empty, flush_current_scope, tag_calls, step, run,
}
use pysubunit.Results.Tags.Active.{contains-update, contains-difference}

-- The scope that calls of tags make of one.
unfoldable pub collected : List TagCall → Scope → Scope
collected [] c = c
collected ((new_tags, gone_tags) ∷ calls) c = collected calls (change new_tags gone_tags c)

-- What a receiver does with calls of tags.
unfoldable pub received : List TagCall → List Text → List Text
received [] held = held
received ((new_tags, gone_tags) ∷ calls) held =
    received calls (difference (update held new_tags) gone_tags)

-- The call does not name the tag on both sides.
abbrev pub IsOneSided : Text → TagCall → Type 0
IsOneSided t (new_tags, gone_tags) = (contains new_tags t && contains gone_tags t) ≡ false

contains-taken :
    (held new_tags gone_tags : List Text) (t : Text)
    → contains (difference (update held new_tags) gone_tags) t
      ≡ ((contains held t || contains new_tags t) && not (contains gone_tags t))
contains-taken held new_tags gone_tags t =
    ground (
      arith,
      contains-difference (update held new_tags) gone_tags t,
      contains-update held new_tags t,
    )

collected-received :
    (calls : List TagCall) (c : Scope) (held now : List Text) (t : Text)
    → All (IsOneSided t) calls
    → ((contains held t || contains c.new_tags t) && not (contains c.gone_tags t)) ≡ contains now t
    → ((contains held t || contains (collected calls c).new_tags t)
        && not (contains (collected calls c).gone_tags t))
      ≡ contains (received calls now) t
unfolding collected received change
collected-received [] c held now t k h = h
collected-received ((n, g) ∷ calls) c held now t (k, ks) h =
    collected-received calls (change n g c) held (difference (update now n) g) t ks (
      ground (
        arith,
        contains-taken now n g t,
        contains-taken c.new_tags n g t,
        contains-taken c.gone_tags g n t,
      ))

nothing_taken :
    (held : List Text) (t : Text)
    → ((contains held t || contains [] t) && not (contains [] t)) ≡ contains held t
unfolding contains
nothing_taken held t = ground arith

contains-received :
    (new_tags gone_tags held : List Text) (t : Text)
    → contains (received (non_empty (record { new_tags = new_tags; gone_tags = gone_tags })) held) t
      ≡ ((contains held t || contains new_tags t) && not (contains gone_tags t))
unfolding received
contains-received [] [] held t = sym (nothing_taken held t)
contains-received [] (g ∷ gs) held t = contains-taken held [] (g ∷ gs) t
contains-received (n ∷ ns) gone_tags held t = contains-taken held (n ∷ ns) gone_tags t

-- One call with the collected tags has the effect of the calls that it stands for, on every tag that
-- no call names on both sides.
pub received-collected :
    (calls : List TagCall) (held : List Text) (t : Text)
    → All (IsOneSided t) calls
    → contains (received (non_empty (collected calls empty)) held) t
      ≡ contains (received calls held) t
received-collected calls held t k =
    let c = collected calls empty in
    contains-received c.new_tags c.gone_tags held t
    ∙ collected-received calls empty held held t k (nothing_taken held t)

module _ {ℓ} {Event : Type ℓ} where
  run_from :
      (calls : List TagCall) (c : Scope) (e : Event) (rest : List (Call Event))
      → run (record { global_tags = c; test_tags = none }) (tag_calls calls ++ event e ∷ rest)
        ≡ tag_calls (non_empty (collected calls c)) ++ event e ∷ run clear_tags rest
  unfolding run step tag_calls collected change_tags flush_current_scope
  run_from [] c e rest = append_assoc (tag_calls (non_empty c)) (event e ∷ []) (run clear_tags rest)
  run_from (call ∷ calls) c e rest = run_from calls (change call.0 call.1 c) e rest

  -- Calls of tags that follow one another go on as one call, with the tags that they collect, just
  -- before the next other event, and as none if they collect nothing.
  pub run-collected :
      (calls : List TagCall) (e : Event) (rest : List (Call Event))
      → run clear_tags (tag_calls calls ++ event e ∷ rest)
        ≡ tag_calls (non_empty (collected calls empty)) ++ event e ∷ run clear_tags rest
  run-collected calls e rest = run_from calls empty e rest

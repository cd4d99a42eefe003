-- ===== src/Results/Tags/Active.antt =====
-- Which tags a test has.
use pysubunit.Prelude.{
  Bool-cases, inl, inr, ◌≡◌, refl, sym, ap, ◌∙◌, true, false, not, ◌&&◌, ◌||◌, Option, none, some,
  List, [], ◌∷◌, ◌++◌, eq_bytes, eq_bytes_sound, arith,
}
use pysubunit.V2.Types.{Text, contains, add_tag}
use pysubunit.Results.Tags.{
  Scope, empty, Tags, update, difference, active_tags, change, change_tags, start_test, stop_test,
}

contains-append :
    (xs ys : List Text) (t : Text) → contains (xs ++ ys) t ≡ (contains xs t || contains ys t)
unfolding contains
contains-append [] ys t = refl
contains-append (x ∷ xs) ys t = ground (arith, contains-append xs ys t)

contains_same :
    (tags : List Text) (x t : Text) → eq_bytes x t ≡ true → contains tags x ≡ contains tags t
contains_same tags x t h = ap (contains tags) (eq_bytes_sound x t h)

contains-add_tag :
    (tags : List Text) (x t : Text)
    → contains (add_tag tags x) t ≡ (contains tags t || eq_bytes x t)
unfolding add_tag contains
contains-add_tag tags x t = elim (Bool-cases (eq_bytes x t)) [
  | inl h ↦ elim (Bool-cases (contains tags x)) [
    | inl k ↦ rw (k, h) (ground (arith, contains_same tags x t h))
    | inr k ↦ rw (k, h) (ground (arith, contains-append tags (x ∷ []) t))
  ]
  | inr h ↦ elim (Bool-cases (contains tags x)) [
    | inl k ↦ rw (k, h) (ground arith)
    | inr k ↦ rw (k, h) (ground (arith, contains-append tags (x ∷ []) t))
  ]
]

pub contains-update :
    (tags xs : List Text) (t : Text)
    → contains (update tags xs) t ≡ (contains tags t || contains xs t)
unfolding update contains
contains-update tags [] t = ground arith
contains-update tags (x ∷ xs) t =
    ground (arith, contains-update (add_tag tags x) xs t, contains-add_tag tags x t)

pub contains-difference :
    (tags gone : List Text) (t : Text)
    → contains (difference tags gone) t ≡ (contains tags t && not (contains gone t))
unfolding difference contains
contains-difference [] gone t = refl
contains-difference (x ∷ xs) gone t = elim (Bool-cases (eq_bytes x t)) [
  | inl h ↦ ground (arith, contains-difference xs gone t, contains_same gone x t h)
  | inr h ↦ ground (arith, contains-difference xs gone t)
]

change_in :
    (c : Scope) (o : Option Scope) (new_tags gone_tags : List Text) (t : Text)
    → (contains new_tags t && contains gone_tags t) ≡ false
    → contains
        (active_tags (change_tags new_tags gone_tags (record { global_tags = c; test_tags = o })))
        t
      ≡ ((contains (active_tags (record { global_tags = c; test_tags = o })) t
            || contains new_tags t)
          && not (contains gone_tags t))
unfolding change_tags change active_tags
change_in c none new_tags gone_tags t h = ground (
  arith,
  contains-difference (update c.new_tags new_tags) gone_tags t,
  contains-update c.new_tags new_tags t,
)
change_in c (some test) new_tags gone_tags t h =
    let n = difference (update test.new_tags new_tags) gone_tags in
    let g = difference (update test.gone_tags gone_tags) new_tags in
    ground (
      arith,
      contains-update (difference c.new_tags g) n t,
      contains-update (difference c.new_tags test.gone_tags) test.new_tags t,
      contains-difference c.new_tags g t,
      contains-difference c.new_tags test.gone_tags t,
      contains-difference (update test.new_tags new_tags) gone_tags t,
      contains-difference (update test.gone_tags gone_tags) new_tags t,
      contains-update test.new_tags new_tags t,
      contains-update test.gone_tags gone_tags t,
    )

-- The tags that a test has are those before the call, with the new and without the gone. It is so in
-- a test and between tests, for each tag that the call does not name on both sides.
pub active_tags-change_tags :
    (s : Tags) (new_tags gone_tags : List Text) (t : Text)
    → (contains new_tags t && contains gone_tags t) ≡ false
    → contains (active_tags (change_tags new_tags gone_tags s)) t
      ≡ ((contains (active_tags s) t || contains new_tags t) && not (contains gone_tags t))
active_tags-change_tags s new_tags gone_tags t h =
    change_in s.global_tags s.test_tags new_tags gone_tags t h

-- A number of calls of tags.
abbrev pub Calls : Type 0
Calls = List (List Text × List Text)

unfoldable pub change_all : Calls → Tags → Tags
change_all [] s = s
change_all ((new_tags, gone_tags) ∷ calls) s = change_all calls (change_tags new_tags gone_tags s)

change_all-global :
    (calls : Calls) (g c : Scope)
    → (change_all calls (record { global_tags = g; test_tags = some c })).global_tags ≡ g
unfolding change_all change_tags
change_all-global [] g c = refl
change_all-global (call ∷ calls) g c = change_all-global calls g (change call.0 call.1 c)

-- Between tests, a test with any calls of tags in it leaves the tags as they were.
stop_test-change_all :
    (s : Tags) (calls : Calls)
    → s.test_tags ≡ none
    → stop_test (change_all calls (start_test s)) ≡ s
stop_test-change_all s calls h =
    ap (λ g. record { global_tags = g; test_tags = none })
      (change_all-global calls s.global_tags empty)
    ∙ ap (λ o. record { global_tags = s.global_tags; test_tags = o }) (sym h)

abbrev pub AreApart : Scope → Type 0
AreApart c = (t : Text) → (contains c.new_tags t && contains c.gone_tags t) ≡ false

-- No tag is both new and gone in a scope: a call of tags keeps it so, even when its two arguments
-- have tags in common.
change-AreApart :
    (new_tags gone_tags : List Text) (c : Scope)
    → AreApart c
    → AreApart (change new_tags gone_tags c)
unfolding change
change-AreApart new_tags gone_tags c h t = ground (
  arith,
  h t,
  contains-difference (update c.new_tags new_tags) gone_tags t,
  contains-difference (update c.gone_tags gone_tags) new_tags t,
  contains-update c.new_tags new_tags t,
  contains-update c.gone_tags gone_tags t,
)

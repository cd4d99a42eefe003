-- ===== src/Results/Tags/Members.antt =====
-- What holds of every tag, through the operations of a set.
use pysubunit.Prelude.{true, false, List, [], ◌∷◌, ◌++◌, All, All-append, if◌then◌else◌}
use pysubunit.V2.Types.{Text, contains, add_tag}
use pysubunit.Results.Tags.{update, difference}

module _ {ℓ} (P : Text → Type ℓ) where
  pub add_tag-All : (held : List Text) (t : Text) → All P held → P t → All P (add_tag held t)
  unfolding add_tag
  add_tag-All held t a p =
      elim (contains held t) as (λ b. All P (if b then held else held ++ t ∷ [])) [
        | true ↦ a
        | false ↦ All-append P held (t ∷ []) a (p, tt)
      ]

  pub update-All : (held tags : List Text) → All P held → All P tags → All P (update held tags)
  unfolding update
  update-All held [] a b = a
  update-All held (t ∷ ts) a (p, b) = update-All (add_tag held t) ts (add_tag-All held t a p) b

  pub difference-All : (tags gone : List Text) → All P tags → All P (difference tags gone)
  unfolding difference
  difference-All [] gone a = tt
  difference-All (t ∷ ts) gone (p, a) =
      let rest = difference-All ts gone a in
      elim (contains gone t)
        as (λ b. All P (if b then difference ts gone else t ∷ difference ts gone)) [
          | true ↦ rest
          | false ↦ (p, rest)
        ]

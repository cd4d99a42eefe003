-- ===== src/ToDisk/Paths.antt =====
-- Which path is allocated, and when none is.
use pysubunit.Prelude.{ℕ, zero, suc, ◌≡◌, refl, ap, ◌∙◌, Bool, true, false, none}
use pysubunit.V2.Types.{Text}
use pysubunit.ToDisk.{squash, candidate_of, is_inside, allocate_path}

module _ (realpath : Text → Text) (exists : Text → Bool) where
  -- A path in the root at which there is nothing.
  abbrev pub IsFree : Text → Text → Type 0
  IsFree root path = (is_inside realpath exists root path ≡ true) × (exists path ≡ false)

  -- A name without separators that leads out of the root is tried again for ever.
  pub allocate_path-endless :
      (fuel probes : ℕ) (root sub : Text)
      → squash sub ≡ sub
      → is_inside realpath exists root (candidate_of realpath exists root sub) ≡ false
      → allocate_path realpath exists fuel probes root sub ≡ none
  unfolding allocate_path
  allocate_path-endless zero probes root sub e h = refl
  allocate_path-endless (suc fuel) probes root sub e h = rw h (
      ap (allocate_path realpath exists fuel probes root) e
      ∙ allocate_path-endless fuel probes root sub e h)

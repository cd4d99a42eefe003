-- ===== src/Std/Dict.antt =====
-- A dict with texts for keys, as a list of its items in the order of insertion.
use pysubunit.Prelude.{List, [], ◌∷◌, ℕ, eq_bytes, if◌then◌else◌}

-- `items[name] = value`
unfoldable pub set_item {ℓ} :
    {Value : Type ℓ} → List ℕ → Value → List (List ℕ × Value) → List (List ℕ × Value)
set_item name value [] = (name, value) ∷ []
set_item name value (item ∷ items) =
    let rest = set_item name value items in
    if eq_bytes item.0 name then (name, value) ∷ items else item ∷ rest

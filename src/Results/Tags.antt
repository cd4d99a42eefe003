-- ===== src/Results/Tags.antt =====
-- test_results.TagsMixin, make_tag_filter and TagCollapsingDecorator. A set of tags is a list without repetitions.
pub mod Active
pub mod Members
pub mod Collapsed
use pysubunit.Prelude.{
  Bool, true, false, not, ◌&&◌, Option, none, some, List, [], ◌∷◌, ◌++◌, if◌then◌else◌,
}
use pysubunit.V2.Types.{Text, contains, add_tag}

-- set.update
unfoldable pub update : List Text → List Text → List Text
update tags [] = tags
update tags (x ∷ xs) = update (add_tag tags x) xs

-- set.difference and set.difference_update
unfoldable pub difference : List Text → List Text → List Text
difference [] gone = []
difference (x ∷ xs) gone =
    let rest = difference xs gone in if contains gone x then rest else x ∷ rest

pub record Scope : Type 0 where
  pub new_tags : List Text
  pub gone_tags : List Text

abbrev pub empty : Scope
empty = record { new_tags = []; gone_tags = [] }

pub record Tags : Type 0 where
  pub global_tags : Scope
  pub test_tags : Option Scope

abbrev pub clear_tags : Tags
clear_tags = record { global_tags = empty; test_tags = none }

abbrev active_in : List Text → Option Scope → List Text
active_in global_new none = global_new
active_in global_new (some test) = update (difference global_new test.gone_tags) test.new_tags

unfoldable pub active_tags : Tags → List Text
active_tags s = active_in s.global_tags.new_tags s.test_tags

abbrev pub start_test : Tags → Tags
start_test s = record s { test_tags = some empty }

abbrev pub stop_test : Tags → Tags
stop_test s = record s { test_tags = none }

-- What `tags` does to the sets of the current scope, in place.
unfoldable pub change : List Text → List Text → Scope → Scope
change new_tags gone_tags c = record {
  new_tags = difference (update c.new_tags new_tags) gone_tags;
  gone_tags = difference (update c.gone_tags gone_tags) new_tags;
}

abbrev in_scope : (Scope → Scope) → Tags → Option Scope → Tags
in_scope f s none = record s { global_tags = f s.global_tags }
in_scope f s (some test) = record s { test_tags = some (f test) }

-- A scope is a pair, which is true whenever it is there.
unfoldable pub change_tags : List Text → List Text → Tags → Tags
change_tags new_tags gone_tags s = in_scope (change new_tags gone_tags) s s.test_tags

abbrev pub current_scope : Tags → Scope
current_scope s = elim s.test_tags [ none ↦ s.global_tags | some test ↦ test ]

-- What goes to the receiver: a call of tags with its two arguments.
abbrev pub TagCall : Type 0
TagCall = List Text × List Text

abbrev pub non_empty : Scope → List TagCall
non_empty c = elim c.new_tags [
  | [] ↦ elim c.gone_tags [ [] ↦ [] | g ∷ gs ↦ (c.new_tags, c.gone_tags) ∷ [] ]
  | n ∷ ns ↦ (c.new_tags, c.gone_tags) ∷ []
]

abbrev reset_in : Tags → Option Scope → Tags
reset_in s none = record s { global_tags = empty }
reset_in s (some test) = record s { test_tags = some empty }

-- _flush_current_scope
unfoldable pub flush_current_scope : Tags → List TagCall × Tags
flush_current_scope s = (non_empty (current_scope s), reset_in s s.test_tags)

-- The calls of TagCollapsingDecorator. It never calls startTest and stopTest of TagsMixin, so its
-- scope stays the global one.
pub data Call {ℓ} (Event : Type ℓ) : Type ℓ where
  tags_call : List Text → List Text → Call Event
  event : Event → Call Event

module _ {ℓ} {Event : Type ℓ} where
  -- The calls of tags that the hook makes.
  unfoldable pub tag_calls : List TagCall → List (Call Event)
  tag_calls [] = []
  tag_calls (c ∷ cs) = tags_call c.0 c.1 ∷ tag_calls cs

  unfoldable pub step : Tags → Call Event → List (Call Event) × Tags
  step s (tags_call new_tags gone_tags) = ([], change_tags new_tags gone_tags s)
  step s (event e) = let f = flush_current_scope s in (tag_calls f.0 ++ event e ∷ [], f.1)

  unfoldable pub run : Tags → List (Call Event) → List (Call Event)
  run s [] = []
  run s (c ∷ cs) = let b = step s c in b.0 ++ run b.1 cs

-- set.issubset and the truth of an intersection
unfoldable pub subset : List Text → List Text → Bool
subset [] ys = true
subset (x ∷ xs) ys = contains ys x && subset xs ys

unfoldable pub meets : List Text → List Text → Bool
meets [] ys = false
meets (x ∷ xs) ys = let rest = meets xs ys in if contains ys x then true else rest

-- make_tag_filter: an empty set of tags asks for nothing.
unfoldable pub check_tags : List Text → List Text → List Text → Bool
check_tags with_tags without_tags tags = subset with_tags tags && not (meets without_tags tags)

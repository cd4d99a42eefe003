-- ===== src/Results/Times.antt =====
-- test_results.TimeCollapsingDecorator, on the hooks of HookedTestResultDecorator.
pub mod Collapsed
use pysubunit.Prelude.{Bool, true, not, Option, none, some, List, [], ◌∷◌, ◌++◌, if◌then◌else◌}

-- The calls of a result: `event` is any that HookedTestResultDecorator hooks, `tags` is passed on
-- without its hook.
pub data Call {ℓ κ} (Time : Type ℓ) (Event : Type κ) : Type (ℓ ⊔ κ) where
  time : Time → Call Time Event
  event : Event → Call Time Event
  tags : Event → Call Time Event

pub record Collapsing {ℓ} (Time : Type ℓ) : Type ℓ where
  pub last_received_time : Option Time
  pub last_sent_time : Option Time

-- What goes on to the decorated result, and the state after it.
abbrev pub Step {ℓ κ} : Type ℓ → Type κ → Type (ℓ ⊔ κ)
Step Time Event = List (Call Time Event) × Collapsing Time

abbrev differs {ℓ} : {Time : Type ℓ} → (Time → Time → Bool) → Time → Option Time → Bool
differs same t none = true
differs same t (some sent) = not (same t sent)

-- `same` is the equality of two times.
module _ {ℓ κ} {Time : Type ℓ} {Event : Type κ} (same : Time → Time → Bool) where
  abbrev before_in : Option Time → Option Time → Step Time Event
  before_in none sent = ([], record { last_received_time = none; last_sent_time = sent })
  before_in (some t) sent =
      if differs same t sent
      then (time t ∷ [], record { last_received_time = none; last_sent_time = some t })
      else ([], record { last_received_time = none; last_sent_time = sent })

  -- _before_event
  unfoldable pub before_event : Collapsing Time → Step Time Event
  before_event s = before_in s.last_received_time s.last_sent_time

  abbrev time_in : Option Time → Option Time → Time → Step Time Event
  time_in none sent t =
      (time t ∷ [], record { last_received_time = some t; last_sent_time = some t })
  time_in (some before) sent t = ([], record { last_received_time = some t; last_sent_time = sent })

  unfoldable pub step : Collapsing Time → Call Time Event → Step Time Event
  step s (time t) = time_in s.last_received_time s.last_sent_time t
  step s (event e) = let b = before_event s in (b.0 ++ event e ∷ [], b.1)
  step s (tags e) = (tags e ∷ [], s)

  unfoldable pub run : Collapsing Time → List (Call Time Event) → List (Call Time Event)
  run s [] = []
  run s (c ∷ cs) = let b = step s c in b.0 ++ run b.1 cs

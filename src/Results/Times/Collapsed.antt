-- ===== src/Results/Times/Collapsed.antt =====
-- What TimeCollapsingDecorator passes on.
use pysubunit.Prelude.{
  ◌≡◌, refl, ap, ◌∙◌, Bool, Bool-cases, inl, inr, Option, none, some, List, [], ◌∷◌, ◌++◌, map,
  if◌then◌else◌,
}
use pysubunit.Results.Times.{Call, time, event, tags, Collapsing, before_event, step, run}

unfoldable pub last {ℓ} : {Time : Type ℓ} → Time → List Time → Time
last t [] = t
last t (u ∷ us) = last u us

abbrev holding {ℓ} : {Time : Type ℓ} → Time → Time → Collapsing Time
holding received sent = record { last_received_time = some received; last_sent_time = some sent }

abbrev pub between {ℓ} : {Time : Type ℓ} → Time → Collapsing Time
between sent = record { last_received_time = none; last_sent_time = some sent }

module _ {ℓ κ} {Time : Type ℓ} {Event : Type κ} where
  -- The calls that are no times.
  unfoldable pub events : List (Call Time Event) → List (Call Time Event)
  events [] = []
  events (time t ∷ cs) = events cs
  events (event e ∷ cs) = event e ∷ events cs
  events (tags e ∷ cs) = tags e ∷ events cs

  events-append : (cs ds : List (Call Time Event)) → events (cs ++ ds) ≡ events cs ++ events ds
  unfolding events
  events-append [] ds = refl
  events-append (time t ∷ cs) ds = events-append cs ds
  events-append (event e ∷ cs) ds = ap (λ es. event e ∷ es) (events-append cs ds)
  events-append (tags e ∷ cs) ds = ap (λ es. tags e ∷ es) (events-append cs ds)

module _ {ℓ κ} {Time : Type ℓ} {Event : Type κ} (same : Time → Time → Bool) where
  events-before :
      (received sent : Option Time)
      → events
          (before_event {Event = Event} same
            (record { last_received_time = received; last_sent_time = sent })).0
        ≡ []
  unfolding events before_event
  events-before none sent = refl
  events-before (some t) none = refl
  events-before (some t) (some u) = elim (Bool-cases (same t u)) [
    | inl h ↦ rw h refl
    | inr h ↦ rw h refl
  ]

  events-time :
      (received sent : Option Time) (t : Time)
      → events
          (step {Event = Event} same
            (record { last_received_time = received; last_sent_time = sent })
            (time t)).0
        ≡ []
  unfolding events step
  events-time none sent t = refl
  events-time (some u) sent t = refl

  -- Every call that is no time is passed on, in order and once.
  events-run :
      (cs : List (Call Time Event)) (s : Collapsing Time) → events (run same s cs) ≡ events cs
  unfolding run events step
  events-run [] s = refl
  events-run (time t ∷ cs) s =
      events-append (step {Event = Event} same s (time t)).0
        (run same (step {Event = Event} same s (time t)).1 cs)
      ∙ ap (λ es. es ++ events (run same (step {Event = Event} same s (time t)).1 cs))
          (events-time s.last_received_time s.last_sent_time t)
      ∙ events-run cs (step {Event = Event} same s (time t)).1
  events-run (event e ∷ cs) s =
      let b = before_event {Event = Event} same s in
      events-append (b.0 ++ event e ∷ []) (run same b.1 cs)
      ∙ ap (λ es. es ++ events (run same b.1 cs))
          (events-append b.0 (event e ∷ [])
            ∙ ap (λ es. es ++ event e ∷ []) (events-before s.last_received_time s.last_sent_time))
      ∙ ap (λ es. event e ∷ es) (events-run cs b.1)
  events-run (tags e ∷ cs) s = ap (λ es. tags e ∷ es) (events-run cs s)

  run-holding :
      (us : List Time) (t u : Time) (e : Event) (rest : List (Call Time Event))
      → run same (holding u t) (map time us ++ event e ∷ rest)
        ≡ (if same (last u us) t then [] else time (last u us) ∷ [])
          ++ event e ∷ run same (between (if same (last u us) t then t else last u us)) rest
  unfolding run step last before_event
  run-holding [] t u e rest = elim (Bool-cases (same u t)) [ inl h ↦ rw h refl | inr h ↦ rw h refl ]
  run-holding (v ∷ vs) t u e rest = run-holding vs t v e rest

  -- Of times that follow one another, the first is passed on at once, and the last just before the
  -- next other event, unless it is equal to the first. Between them nothing is passed on.
  pub run-times :
      (s : Collapsing Time) (t : Time) (us : List Time) (e : Event) (rest : List (Call Time Event))
      → s.last_received_time ≡ none
      → run same s (map time (t ∷ us) ++ event e ∷ rest)
        ≡ time t
          ∷ ((if same (last t us) t then [] else time (last t us) ∷ [])
              ++ event e ∷ run same (between (if same (last t us) t then t else last t us)) rest)
  unfolding run step
  run-times s t us e rest h = rw h (ap (λ cs. time t ∷ cs) (run-holding us t t e rest))

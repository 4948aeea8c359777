-- ===== src/Rule/Lifecycle.antt =====
-- What `Apply` keeps over any sequence of evaluations, and what its transitions say.
use signalwatch.Base.{
  Bool, true, false, String, eq_iff, if◌then◌else◌, ◌≡◌, ◌≢◌, Option, none, some, List, [], ◌∷◌,
  arith,
}
use signalwatch.Base.Lists.{All}
use signalwatch.Base.Time.{Time, zero_time}
use signalwatch.Rule.State.{State, is_firing, LiveState, apply, opened, closed}

-- A rule has an open incident exactly while it fires, and a firing cycle has a start.
pub record IsCoherent (s : LiveState) : Type 0 where
  pub firing_has_incident : s.state ≡ State.firing → s.incident_id ≢ ""
  pub firing_has_start : s.state ≡ State.firing → s.triggered_at ≢ zero_time
  pub ok_has_none : s.state ≡ State.ok → s.incident_id ≡ ""
  pub ok_has_no_start : s.state ≡ State.ok → s.triggered_at ≡ zero_time

-- One evaluation: the outcome, its summary, the time, and the id that the caller mints.
pub record Outcome : Type 0 where
  pub triggered : Bool
  pub value : String
  pub at : Time
  pub fresh_id : String

-- The live state after a list of evaluations.
unfoldable pub run : LiveState → List Outcome → LiveState
run s [] = s
run s (o ∷ os) = run (apply s o.triggered o.value o.at o.fresh_id).0 os

-- `Apply` keeps a coherent live state coherent, for a minted id that is not empty, at a time that
-- is not Go's zero time.
pub apply-IsCoherent :
    (s : LiveState) (triggered : Bool) (value : String) (now : Time) (id : String)
    → id ≢ ""
    → now ≢ zero_time
    → IsCoherent s
    → IsCoherent (apply s triggered value now id).0
unfolding apply
apply-IsCoherent s triggered value now id fresh set h = ground (arith, eq_iff id "")

-- After `Apply` the state is what the outcome says; the transition starts at the state before and
-- ends at the state after; it is a change exactly when it opens or closes an incident.
pub apply_transition :
    (s : LiveState) (triggered : Bool) (value : String) (now : Time) (id : String)
    → let (s', t) = apply s triggered value now id in
      (is_firing s'.state ≡ triggered)
      × (t.prev ≡ s.state)
      × (t.next ≡ s'.state)
      × (s'.last_value ≡ value)
      × (s'.last_eval_at ≡ now)
      × (s'.last_error ≡ s.last_error)
unfolding apply
apply_transition s triggered value now id = ground arith

-- Over any list of evaluations with non-empty ids, none at Go's zero time, a coherent rule stays
-- coherent: it has an incident and a trigger time while it fires, and neither while it does not.
pub run-IsCoherent :
    (s : LiveState) (os : List Outcome)
    → All (λ o. o.fresh_id ≢ "") os
    → All (λ o. o.at ≢ zero_time) os
    → IsCoherent s
    → IsCoherent (run s os)
unfolding run
run-IsCoherent s [] fresh set h = h
run-IsCoherent s (o ∷ os) fresh set h =
    run-IsCoherent (apply s o.triggered o.value o.at o.fresh_id).0 os fresh.1 set.1
      (apply-IsCoherent s o.triggered o.value o.at o.fresh_id fresh.0 set.0 h)

-- The incident ids that the transitions of a run open and close, in order: `true` opens.
unfoldable pub events : LiveState → List Outcome → List (Bool × String)
events s [] = []
events s (o ∷ os) =
    let (s', t) = apply s o.triggered o.value o.at o.fresh_id in
    let rest = events s' os in
    if opened t
    then (true, t.incident_id) ∷ rest
    else if closed t
    then (false, t.incident_id) ∷ rest
    else rest

-- An event log is well bracketed from an open incident, or from none: every opening is followed
-- by the closing of the same incident before the next opening.
abbrev pub IsBracketed : Option String → List (Bool × String) → Type 0
IsBracketed none [] = Unit
IsBracketed (some i) [] = Unit
IsBracketed none ((true, j) ∷ es) = IsBracketed (some j) es
IsBracketed none ((false, j) ∷ es) = ⊥
IsBracketed (some i) ((true, j) ∷ es) = ⊥
IsBracketed (some i) ((false, j) ∷ es) = (i ≡ j) × IsBracketed none es

-- The incident that a live state has open.
abbrev pub current : LiveState → Option String
current s = if is_firing s.state then some s.incident_id else none

events_step :
    (s : LiveState) (o : Outcome) (os : List Outcome)
    → IsBracketed
        (current (apply s o.triggered o.value o.at o.fresh_id).0)
        (events (apply s o.triggered o.value o.at o.fresh_id).0 os)
    → IsBracketed (current s) (events s (o ∷ os))
unfolding events apply opened closed
events_step s o os h = ground arith

-- Incidents never overlap and never close twice: over any evaluations, the log of opened and closed
-- incidents alternates, each closing for the incident that was opened last.
pub events-IsBracketed : (s : LiveState) (os : List Outcome) → IsBracketed (current s) (events s os)
unfolding events
events-IsBracketed s [] = elim (current s) as (λ c. IsBracketed c []) [ none ↦ tt | some i ↦ tt ]
events-IsBracketed s (o ∷ os) =
    events_step s o os (events-IsBracketed (apply s o.triggered o.value o.at o.fresh_id).0 os)

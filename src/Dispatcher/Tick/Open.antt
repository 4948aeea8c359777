-- ===== src/Dispatcher/Tick/Open.antt =====
-- The unresolved incidents of a rule over the transition of one `Tick`.

use signalwatch.Base.{
  Bool, true, false, not, ◌&&◌, String, ◌==◌, ◌≡◌, refl, ◌∙◌, ap, List, [], ◌∷◌, ◌++◌, map, Option,
  none, some, inl, inr, ◌⊎◌, Bool-cases, arith, eq_refl, if◌then◌else◌,
}
use signalwatch.Base.Int.{ℤ}
use signalwatch.Base.Lists.{select, update_where}
use signalwatch.Base.Time.{Time, unix_milli}
use signalwatch.Rule.Model.{Rule}
use signalwatch.Rule.State.{
  State, LiveState, Transition, is_firing, apply, apply_switch, opened, closed,
}
use signalwatch.Store.Db.{IncidentRow}
use signalwatch.Store.Incidents.{has_id, open_row}
use signalwatch.Dispatcher.Tick.{new_incident}

abbrev pub is_unresolved : Option ℤ → Bool
is_unresolved none = true
is_unresolved (some ms) = false

abbrev pub is_open : String → IncidentRow → Bool
is_open rule i = i.rule_id == rule && is_unresolved i.resolved_at

-- The ids of the unresolved incidents of a rule.
abbrev pub open_ids : String → List IncidentRow → List String
open_ids rule rows = map (λ i. i.id) (select (is_open rule) rows)

-- The incident that a live state names.
abbrev pub current_ids : LiveState → List String
current_ids ls = if is_firing ls.state then ls.incident_id ∷ [] else []

-- The table of incidents after step 4.
abbrev pub tracked : Rule → Transition → String → Time → List IncidentRow → List IncidentRow
tracked r t value now rows =
    if opened t
    then rows ++ open_row (new_incident r t value) ∷ []
    else if closed t
    then update_where (has_id t.incident_id) (λ i. record i { resolved_at = some (unix_milli now) })
        rows
    else rows

open_ids-append :
    (rule : String) (i : IncidentRow) (rows : List IncidentRow)
    → is_open rule i ≡ true
    → open_ids rule (rows ++ i ∷ []) ≡ open_ids rule rows ++ i.id ∷ []
unfolding select
open_ids-append rule i [] hit = simp hit refl
open_ids-append rule i (x ∷ rows) hit = elim (Bool-cases (is_open rule x)) [
  | inl h ↦ simp h (ap (λ l. x.id ∷ l) (open_ids-append rule i rows hit))
  | inr h ↦ simp h (open_ids-append rule i rows hit)
]

-- Resolving an incident takes exactly its id away.
open_ids-resolve :
    (rule id : String) (ms : ℤ) (rows : List IncidentRow)
    → open_ids rule (update_where (has_id id) (λ i. record i { resolved_at = some ms }) rows)
      ≡ select (λ j. not (j == id)) (open_ids rule rows)
unfolding select update_where
open_ids-resolve rule id ms [] = refl
open_ids-resolve rule id ms (x ∷ rows) = ground (arith, open_ids-resolve rule id ms rows)

State-cases : (s : State) → (s ≡ State.ok) ⊎ (s ≡ State.firing)
State-cases State.ok = inl refl
State-cases State.firing = inr refl

current :
    {s : State} (ls : LiveState)
    → ls.state ≡ s
    → current_ids ls ≡ (if is_firing s then ls.incident_id ∷ [] else [])
current ls e = ap (λ s. if is_firing s then ls.incident_id ∷ [] else []) e

-- The incidents after the transition of `Apply` are those that its live state names.
pub tracked-apply :
    (r : Rule) (triggered : Bool) (value : String) (now : Time) (fresh : String) (ls : LiveState)
    (rows : List IncidentRow)
    → open_ids r.id rows ≡ current_ids ls
    → let (ls', t) = apply ls triggered value now fresh in
      open_ids r.id (tracked r t value now rows) ≡ current_ids ls'
unfolding apply apply_switch opened closed open_row new_incident select
tracked-apply r true value now fresh ls rows h = elim (State-cases ls.state) [
  | inl e ↦ simp e (
      open_ids-append r.id _ rows (simp (eq_refl r.id) refl)
      ∙ ap (λ l. l ++ (if fresh == "" then ls.incident_id else fresh) ∷ []) (h ∙ current ls e))
  | inr e ↦ simp e (h ∙ current ls e)
]
tracked-apply r false value now fresh ls rows h = elim (State-cases ls.state) [
  | inl e ↦ simp e (h ∙ current ls e)
  | inr e ↦ simp e (
      open_ids-resolve r.id ls.incident_id (unix_milli now) rows
      ∙ ap (select (λ j. not (j == ls.incident_id))) (h ∙ current ls e)
      ∙ simp (eq_refl ls.incident_id) refl)
]

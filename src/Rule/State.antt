-- ===== src/Rule/State.antt =====
-- internal/rule/state.go, and `State` and `LiveState` of internal/rule/rule.go.
use signalwatch.Base.{Bool, true, false, not, ◌&&◌, String, ◌==◌, if◌then◌else◌}
use signalwatch.Base.Time.{Time, zero_time}

pub data State : Type 0 where
  ok firing : State

abbrev pub is_firing : State → Bool
is_firing State.ok = false
is_firing State.firing = true

abbrev pub is_ok : State → Bool
is_ok State.ok = true
is_ok State.firing = false

pub record LiveState : Type 0 where
  pub rule_id : String
  pub state : State
  pub triggered_at : Time
  pub last_eval_at : Time
  pub last_value : String
  pub last_error : String
  pub incident_id : String

-- The live state of a rule that has none yet.
abbrev pub seed : String → LiveState
seed id = record {
  rule_id = id;
  state = State.ok;
  triggered_at = zero_time;
  last_eval_at = zero_time;
  last_value = "";
  last_error = "";
  incident_id = "";
}

pub record Transition : Type 0 where
  pub rule_id : String
  pub prev : State
  pub next : State
  pub now : Time
  pub triggered_at : Time
  pub incident_id : String
  pub last_value : String

-- `Apply` mutates the live state and returns the transition. `switch` is the four clauses on the
-- outcome and the state before.
unfoldable pub apply_switch :
    Bool → State → Time → String → LiveState → Transition → LiveState × Transition
apply_switch true State.ok now new_id ls t =
    let ls' = record ls {
      state = State.firing;
      triggered_at = now;
      incident_id = if new_id == "" then ls.incident_id else new_id;
    } in
    (
      ls',
      record t {
        next = State.firing;
        triggered_at = ls'.triggered_at;
        incident_id = ls'.incident_id;
      },
    )
apply_switch true State.firing now new_id ls t = (
  ls,
  record t { next = State.firing; triggered_at = ls.triggered_at; incident_id = ls.incident_id },
)
apply_switch false State.firing now new_id ls t = (
  record ls { state = State.ok; incident_id = ""; triggered_at = zero_time },
  record t { next = State.ok; incident_id = ls.incident_id },
)
apply_switch false State.ok now new_id ls t = (ls, record t { next = State.ok })

unfoldable pub apply : LiveState → Bool → String → Time → String → LiveState × Transition
unfolding apply_switch
apply ls triggered value now new_id =
    let ls' = record ls { last_eval_at = now; last_value = value } in
    let t : Transition = record {
      rule_id = ls.rule_id;
      prev = ls.state;
      next = State.ok;
      now = now;
      triggered_at = zero_time;
      incident_id = "";
      last_value = value;
    } in
    apply_switch triggered ls.state now new_id ls' t

unfoldable pub is_transition : Transition → Bool
is_transition t = not (is_firing t.prev && is_firing t.next) && not (is_ok t.prev && is_ok t.next)

unfoldable pub opened : Transition → Bool
opened t = is_ok t.prev && is_firing t.next

unfoldable pub closed : Transition → Bool
closed t = is_firing t.prev && is_ok t.next

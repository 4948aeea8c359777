-- ===== src/Api/Handlers/Rules.antt =====
-- The handlers of /v1/rules of internal/api/api.go, and the wire form of a rule.
pub mod Laws
use signalwatch.Base.{Bool, String, ◌==◌, List, map, Option, none, some, if◌then◌else◌}
use signalwatch.Base.Result.{Result, ok, err, Error, error, wrap}
use signalwatch.Base.Time.{Time, zero_time}
use signalwatch.Subscriber.{Labels}
use signalwatch.Rule.Condition.{Condition, Compiled, Float64, Libraries, compile}
use signalwatch.Rule.Model.{Rule, Severity, info, other, validate}
use signalwatch.Rule.Wire.{Json, marshal_condition, unmarshal_condition}
use signalwatch.Store.Rules
use signalwatch.Engine.{Engine, on_store, create, update, delete}
use signalwatch.Api.Reply.{Reply, sent, bare, or_missing, Handling, answer, given, calling}
use signalwatch.Api.Handlers.Subscriptions.{Seconds}

-- `rulePayload`; a body with no condition leaves that field nil.
pub record Payload (Raw : Type 0) : Type 0 where
  pub id : String
  pub name : String
  pub description : String
  pub enabled : Bool
  pub severity : Severity
  pub labels : Labels
  pub input_ref : String
  pub condition : Option Raw
  pub schedule_sec : Float64

-- The severity of a rule: "info" for "".
abbrev pub or_info : Severity → Severity
or_info (other s) = if s == "" then info else other s
or_info info = info
or_info Severity.warning = Severity.warning
or_info Severity.critical = Severity.critical

module _ {Raw : Type 0} (json : Json Raw) (sec : Seconds) where
  -- `UnmarshalCondition` of a field that may be nil.
  abbrev pub decode_condition : Option Raw → Result Condition
  decode_condition none = err (wrap "condition" (error "unexpected end of JSON input"))
  decode_condition (some raw) = unmarshal_condition json raw

  unfoldable pub with_condition : String → Payload Raw → Condition → Rule
  with_condition fresh p c = record {
    id = if p.id == "" then fresh else p.id;
    name = p.name;
    description = p.description;
    enabled = p.enabled;
    severity = or_info p.severity;
    labels = p.labels;
    input_ref = p.input_ref;
    condition = some c;
    schedule = sec.to_duration p.schedule_sec;
    created_at = zero_time;
    updated_at = zero_time;
  }

  abbrev pub decoded_rule : String → Payload Raw → Result Condition → Result Rule
  decoded_rule fresh p (ok c) = ok (with_condition fresh p c)
  decoded_rule fresh p (err e) = err (wrap "condition" e)

  -- `toRule`.
  unfoldable pub to_rule : String → Payload Raw → Result Rule
  unfolding with_condition
  to_rule fresh p = decoded_rule fresh p (decode_condition p.condition)

  abbrev body_of : Result Raw → Option Raw
  body_of (ok raw) = some raw
  body_of (err e) = none

  -- `condJSON, _ := r.Condition.MarshalCondition()`: nothing where it fails.
  abbrev pub encode_condition : Option Condition → Option Raw
  encode_condition none = none
  encode_condition (some c) = body_of (marshal_condition json c)

  -- `ruleToPayload`. Its rules come from `toRule` or the store, and have a condition.
  unfoldable pub to_payload : Rule → Payload Raw
  to_payload r = record {
    id = r.id;
    name = r.name;
    description = r.description;
    enabled = r.enabled;
    severity = r.severity;
    labels = r.labels;
    input_ref = r.input_ref;
    condition = encode_condition r.condition;
    schedule_sec = sec.of_duration r.schedule;
  }

  -- `listRules`.
  unfoldable pub list_rules : Handling Engine (List (Payload Raw))
  list_rules = calling 500 (on_store Rules.list) λ rows. answer (sent 200 (map to_payload rows))

  -- `getRule`.
  unfoldable pub get_rule : String → Handling Engine (Payload Raw)
  get_rule id =
      calling 500 (on_store (Rules.get id))
        λ found. answer (or_missing "rule not found" to_payload found)

  module _ (lib : Libraries) where
    -- `createRule`.
    unfoldable pub create_rule :
        Time → String → Result (Payload Raw) → Handling Engine (Payload Raw)
    create_rule now fresh body = given 400 body λ p.
        given 400 (to_rule fresh p)
          λ r. calling 400 (create lib now r) λ _. answer (sent 201 (to_payload r))

    -- `updateRule`: the id of the path replaces that of the body.
    unfoldable pub update_rule :
        Time → String → String → Result (Payload Raw) → Handling Engine (Payload Raw)
    update_rule now fresh id body = given 400 body λ p.
        given 400 (to_rule fresh (record p { id = id }))
          λ r. calling 400 (update lib now r) λ _. answer (sent 200 (to_payload r))

    -- `rec.Condition.Compile(nil)` of a rule that `toRule` made.
    abbrev pub compile_condition : Option Condition → Result Compiled
    compile_condition none = err (error "rule: condition is required")
    compile_condition (some c) = compile lib c

    -- `validateRule`: the checks of a rule, and nothing is stored.
    unfoldable pub validate_rule : String → Result (Payload Raw) → Handling Engine (Unit {0})
    validate_rule fresh body = given 400 body λ p. given 400 (to_rule fresh p) λ r.
        given 400 (validate r)
          λ _. given 400 (compile_condition r.condition) λ _. answer (sent 200 tt)

-- `deleteRule`.
unfoldable pub delete_rule : String → Handling Engine (Unit {0})
delete_rule id = calling 500 (delete id) λ _. answer (bare 204)

-- ===== src/Rule/Model.antt =====
-- internal/rule/rule.go: the rule and `Validate`.
use signalwatch.Base.{Bool, true, ◌&&◌, String, ◌==◌, Option, none, some, if◌then◌else◌}
use signalwatch.Base.Int.{pos, leb_ℤ}
use signalwatch.Base.Result.{Result, ok, err, error}
use signalwatch.Base.Time.{Time, Duration}
use signalwatch.Subscriber.{Labels}
use signalwatch.Rule.Condition.{Condition, mode, is_scheduled}

pub data Severity : Type 0 where
  info warning critical : Severity
  other : String → Severity

-- `string(severity)`.
abbrev pub severity_name : Severity → String
severity_name info = "info"
severity_name warning = "warning"
severity_name critical = "critical"
severity_name (other s) = s

pub record Rule : Type 0 where
  pub id : String
  pub name : String
  pub description : String
  pub enabled : Bool
  pub severity : Severity
  pub labels : Labels
  pub input_ref : String
  pub condition : Option Condition
  pub schedule : Duration
  pub created_at : Time
  pub updated_at : Time

-- `""`, "info", "warning" and "critical" are valid.
abbrev severity_is_valid : Severity → Bool
severity_is_valid info = true
severity_is_valid warning = true
severity_is_valid critical = true
severity_is_valid (other s) = s == ""

validate_severity : Severity → Result (Unit {0})
validate_severity v = if severity_is_valid v then ok tt else err (error "rule: invalid severity")

-- `Rule.Validate`.
unfoldable pub validate : Rule → Result (Unit {0})
unfolding validate_severity
validate r =
    if r.name == ""
    then err (error "rule: name is required")
    else if r.input_ref == ""
    then err (error "rule: input_ref is required")
    else elim r.condition [
      | none ↦ err (error "rule: condition is required")
      | some c ↦
          if is_scheduled (mode c) && leb_ℤ r.schedule (pos 0)
          then err (error "rule: scheduled rules require a positive schedule duration")
          else validate_severity r.severity
    ]

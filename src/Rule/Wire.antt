-- ===== src/Rule/Wire.antt =====
-- The JSON form of a condition: `marshalCondition` and `UnmarshalCondition` of
-- internal/rule/condition.go.
use signalwatch.Base.{String, ◌==◌, if◌then◌else◌}
use signalwatch.Base.Result.{Result, ok, err, error, wrap}
use signalwatch.Rule.Condition.{
  Condition, Threshold, WindowAggregate, PatternMatch, SqlReturnsRows, Expression, threshold,
  window_aggregate, pattern_match, sql_returns_rows, expression,
}

-- Go's `encoding/json` at the types of this file: `Marshal` of the wrapper with its type and its
-- spec, and `Unmarshal` into the wrapper and into each kind of spec.
pub record Json (Raw : Type 0) : Type 0 where
  pub marshal : String → Condition → Result Raw
  pub unmarshal_wrapper : Raw → Result (String × Raw)
  pub unmarshal_threshold : Raw → Result Threshold
  pub unmarshal_window_aggregate : Raw → Result WindowAggregate
  pub unmarshal_pattern_match : Raw → Result PatternMatch
  pub unmarshal_sql_returns_rows : Raw → Result SqlReturnsRows
  pub unmarshal_expression : Raw → Result Expression

-- The discriminator that `MarshalCondition` of each type passes on.
abbrev pub type_name : Condition → String
type_name (threshold t) = "threshold"
type_name (window_aggregate w) = "window_aggregate"
type_name (pattern_match p) = "pattern_match"
type_name (sql_returns_rows s) = "sql_returns_rows"
type_name (expression e) = "expression"

abbrev into : {A : Type 0} → (A → Condition) → Result A → Result Condition
into f (ok a) = ok (f a)
into f (err e) = err e

module _ {Raw : Type 0} (json : Json Raw) where
  -- The method `MarshalCondition` of the five condition types.
  unfoldable pub marshal_condition : Condition → Result Raw
  marshal_condition c = json.marshal (type_name c) c

  unfoldable pub unmarshal_spec : String → Raw → Result Condition
  unmarshal_spec typ spec =
      if typ == "threshold"
      then into threshold (json.unmarshal_threshold spec)
      else if typ == "window_aggregate"
      then into window_aggregate (json.unmarshal_window_aggregate spec)
      else if typ == "pattern_match"
      then into pattern_match (json.unmarshal_pattern_match spec)
      else if typ == "sql_returns_rows"
      then into sql_returns_rows (json.unmarshal_sql_returns_rows spec)
      else if typ == "expression"
      then into expression (json.unmarshal_expression spec)
      else err (error "condition: unknown type")

  abbrev unmarshal_opened : Result (String × Raw) → Result Condition
  unmarshal_opened (ok (typ, spec)) = unmarshal_spec typ spec
  unmarshal_opened (err e) = err (wrap "condition" e)

  -- `UnmarshalCondition`.
  unfoldable pub unmarshal_condition : Raw → Result Condition
  unfolding unmarshal_spec
  unmarshal_condition raw = unmarshal_opened (json.unmarshal_wrapper raw)

-- ===== src/Eval/Conditions.antt =====
-- The method `Eval` of the compiled conditions, of internal/rule/condition.go and expression.go.
pub mod Aggregates
pub mod History
use signalwatch.Base.{
  ℕ, Bool, true, false, String, ◌==◌, List, [], ◌∷◌, Option, none, some, if◌then◌else◌,
}
use signalwatch.Base.Int.{ℤ}
use signalwatch.Base.Result.{Result, ok, err, error}
use signalwatch.Base.Time.{Duration}
use signalwatch.Rule.Condition.{
  Float64, FloatOps, Op, Agg, MatchKind, avg, sum, min, max, count, regex, contains, Threshold,
  WindowAggregate, PatternMatch, SqlReturnsRows, Expression, Compiled, compare,
}
use signalwatch.Eval.Window.{
  Conversions, Fields, Value, Sample, numeric, avg_over, sum_over, min_over, max_over, count_over,
}

-- What the libraries do: float arithmetic and conversions, `json.Number.Float64`, matching, the
-- printing of `fmt`, and a run of a compiled expression on a record and the samples of a window.
pub record Runtime : Type 0 where
  pub floats : FloatOps
  pub conv : Conversions
  pub parse_float : String → Option Float64
  pub regexp_matches : String → String → Bool
  pub text_contains : String → String → Bool
  pub show_value : Value → String
  pub threshold_text : Threshold → Float64 → String
  pub aggregate_text : WindowAggregate → Float64 → String
  pub pattern_text : PatternMatch → Bool → String
  pub expression_text : String → Bool → String
  pub run_expression :
      String → Option Fields → Option (String → Duration → List Sample) → Result Bool

-- The samples that a helper works on, by field and window.
abbrev pub Helpers : Type 0
Helpers = String → Duration → List Sample

-- `r[field]`.
unfoldable pub field_of : String → Fields → Option Value
field_of field [] = none
field_of field ((k, v) ∷ fs) = let rest = field_of field fs in if k == field then some v else rest

module _ (rt : Runtime) where
  open rt use {
    floats, conv, parse_float, regexp_matches, text_contains, show_value, threshold_text,
    aggregate_text, pattern_text, expression_text, run_expression,
  }

  -- `numericField`, of the value of the field: a `json.Number` is read too.
  unfoldable pub numeric_field : Option Value → Option Float64
  numeric_field none = none
  numeric_field (some (Value.json_number s)) = parse_float s
  numeric_field (some v) = numeric conv v

  -- `stringField`, of the value of the field.
  unfoldable pub string_field : Option Value → Option String
  string_field none = none
  string_field (some (Value.string s)) = some s
  string_field (some v) = some (show_value v)

  abbrev pub threshold_on : Threshold → Option Float64 → Result (Bool × String)
  threshold_on t none = ok (false, "")
  threshold_on t (some x) = ok (compare floats t.op x t.value, threshold_text t x)

  -- `compiledThreshold.Eval`.
  unfoldable pub eval_threshold : Threshold → Option Fields → Result (Bool × String)
  unfolding numeric_field field_of
  eval_threshold t none = err (error "threshold: nil record")
  eval_threshold t (some r) = threshold_on t (numeric_field (field_of t.field r))

  -- The aggregate of the samples: none where there are none, but a count is always there.
  unfoldable pub aggregate : Agg → List Sample → Option Float64
  aggregate avg ss = avg_over floats ss
  aggregate sum ss = sum_over floats ss
  aggregate min ss = min_over floats ss
  aggregate max ss = max_over floats ss
  aggregate count ss = some (floats.of_int (count_over floats ss))
  aggregate (Agg.invalid s) ss = none

  abbrev pub aggregate_on : WindowAggregate → Option Float64 → Result (Bool × String)
  aggregate_on w none = ok (false, "")
  aggregate_on w (some x) = ok (compare floats w.op x w.value, aggregate_text w x)

  -- `compiledWindowAggregate.Eval`.
  unfoldable pub eval_aggregate : WindowAggregate → Option Helpers → Result (Bool × String)
  unfolding aggregate
  eval_aggregate w none = err (error "window_aggregate: no helpers")
  eval_aggregate w (some h) = aggregate_on w (aggregate w.agg (h w.field w.window))

  abbrev pub matches : MatchKind → String → String → Bool
  matches regex pattern s = regexp_matches pattern s
  matches contains pattern s = text_contains s pattern
  matches (MatchKind.invalid k) pattern s = false

  abbrev pub pattern_on : PatternMatch → Option String → Result (Bool × String)
  pattern_on p none = ok (false, "")
  pattern_on p (some s) =
      ok (matches p.kind p.pattern s, pattern_text p (matches p.kind p.pattern s))

  -- `compiledPattern.Eval`.
  unfoldable pub eval_pattern : PatternMatch → Option Fields → Result (Bool × String)
  unfolding string_field field_of
  eval_pattern p none = err (error "pattern_match: nil record")
  eval_pattern p (some r) = pattern_on p (string_field (field_of p.field r))

  abbrev pub expression_on : Expression → Result Bool → Result (Bool × String)
  expression_on e (ok b) = ok (b, expression_text e.source b)
  expression_on e (err x) = err x

  -- `Eval` of each compiled condition, of the helpers and the record of the evaluation.
  unfoldable pub eval : Compiled → Option Helpers → Option Fields → Result (Bool × String)
  unfolding eval_threshold eval_aggregate eval_pattern
  eval (Compiled.threshold t) h r = eval_threshold t r
  eval (Compiled.window_aggregate w) h r = eval_aggregate w h
  eval (Compiled.pattern_match p) h r = eval_pattern p r
  eval (Compiled.sql s n) h r = err (error "sql_returns_rows: not directly evaluable")
  eval (Compiled.expression e) h r = expression_on e (run_expression e.source r h)

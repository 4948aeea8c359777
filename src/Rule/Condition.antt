-- ===== src/Rule/Condition.antt =====
-- internal/rule/condition.go and expression.go: the condition types and their checks at compile
-- time. A `float64` is its bit pattern; the arithmetic on it is `FloatOps`.
use signalwatch.Base.{ℕ, Bool, true, false, not, String, ◌==◌, if◌then◌else◌}
use signalwatch.Base.Int.{ℤ, pos, leb_ℤ}
use signalwatch.Base.Result.{Result, ok, err, error}
use signalwatch.Base.Time.{Duration}

-- The bit pattern of a `float64`.
abbrev pub Float64 : Type 0
Float64 = ℕ

-- IEEE 754 arithmetic, which the processor does.
pub record FloatOps : Type 0 where
  pub lt : Float64 → Float64 → Bool
  pub le : Float64 → Float64 → Bool
  pub eq : Float64 → Float64 → Bool
  pub plus : Float64 → Float64 → Float64
  pub divide : Float64 → Float64 → Float64
  pub of_int : ℕ → Float64
  pub zero_float : Float64

-- `rule.Mode`; `other` is any other string of the type, "" included.
pub data Mode : Type 0 where
  push scheduled : Mode
  other : String → Mode

pub data Op : Type 0 where
  gt gte lt lte eq neq : Op
  invalid : String → Op

pub data Agg : Type 0 where
  avg sum min max count : Agg
  invalid : String → Agg

pub data MatchKind : Type 0 where
  regex contains : MatchKind
  invalid : String → MatchKind

module _ (fl : FloatOps) where
  open fl use {lt as lt_float, le as le_float, eq as eq_float}

  -- `Op.Compare`.
  unfoldable pub compare : Op → Float64 → Float64 → Bool
  compare Op.gt a b = lt_float b a
  compare Op.gte a b = le_float b a
  compare Op.lt a b = lt_float a b
  compare Op.lte a b = le_float a b
  compare Op.eq a b = eq_float a b
  compare Op.neq a b = not (eq_float a b)
  compare (Op.invalid s) a b = false

-- `Op.Validate`.
unfoldable pub validate_op : Op → Result (Unit {0})
validate_op (Op.invalid s) = err (error "invalid op")
validate_op Op.gt = ok tt
validate_op Op.gte = ok tt
validate_op Op.lt = ok tt
validate_op Op.lte = ok tt
validate_op Op.eq = ok tt
validate_op Op.neq = ok tt

pub record Threshold : Type 0 where
  pub field : String
  pub op : Op
  pub value : Float64

pub record WindowAggregate : Type 0 where
  pub field : String
  pub agg : Agg
  pub window : Duration
  pub op : Op
  pub value : Float64

pub record PatternMatch : Type 0 where
  pub field : String
  pub kind : MatchKind
  pub pattern : String

pub record SqlReturnsRows : Type 0 where
  pub data_source : String
  pub query : String
  pub min_rows : ℤ

pub record Expression : Type 0 where
  pub source : String
  pub eval_mode : Mode

pub data Condition : Type 0 where
  threshold : Threshold → Condition
  window_aggregate : WindowAggregate → Condition
  pattern_match : PatternMatch → Condition
  sql_returns_rows : SqlReturnsRows → Condition
  expression : Expression → Condition

-- `Expression.Mode`: anything but "scheduled" is push.
unfoldable pub expression_mode : Mode → Mode
expression_mode scheduled = scheduled
expression_mode push = push
expression_mode (other s) = push

-- The method `Mode` of the five condition types.
unfoldable pub mode : Condition → Mode
unfolding expression_mode
mode (threshold t) = push
mode (window_aggregate w) = scheduled
mode (pattern_match p) = push
mode (sql_returns_rows s) = scheduled
mode (expression e) = expression_mode e.eval_mode

abbrev pub is_scheduled : Mode → Bool
is_scheduled scheduled = true
is_scheduled push = false
is_scheduled (other s) = false

-- What the compilers of Go's `regexp` and of expr-lang accept, and Go's `strings.TrimSpace`.
pub record Libraries : Type 0 where
  pub regexp_compiles : String → Bool
  pub expr_compiles : String → Bool
  pub trim_space : String → String

-- The runtime form of a condition. `sql` carries the minimum of rows after its default.
pub data Compiled : Type 0 where
  threshold : Threshold → Compiled
  window_aggregate : WindowAggregate → Compiled
  pattern_match : PatternMatch → Compiled
  sql : SqlReturnsRows → ℤ → Compiled
  expression : Expression → Compiled

bind_unit : Result (Unit {0}) → Compiled → Result Compiled
bind_unit (ok u) c = ok c
bind_unit (err e) c = err e

compile_threshold : Threshold → Result Compiled
unfolding bind_unit validate_op
compile_threshold t =
    if t.field == ""
    then err (error "threshold: field required")
    else bind_unit (validate_op t.op) (Compiled.threshold t)

validate_agg : Agg → Result (Unit {0})
validate_agg (Agg.invalid s) = err (error "window_aggregate: invalid agg")
validate_agg _ = ok tt

compile_window_aggregate : WindowAggregate → Result Compiled
unfolding bind_unit validate_op validate_agg
compile_window_aggregate w =
    if w.field == ""
    then err (error "window_aggregate: field required")
    else if leb_ℤ w.window (pos 0)
    then err (error "window_aggregate: window must be > 0")
    else elim (validate_agg w.agg) [
      | err e ↦ err e
      | ok u ↦ bind_unit (validate_op w.op) (Compiled.window_aggregate w)
    ]

module _ (lib : Libraries) where
  open lib use {regexp_compiles, expr_compiles, trim_space}

  compile_kind : MatchKind → PatternMatch → Result Compiled
  compile_kind regex p =
      if regexp_compiles p.pattern
      then ok (Compiled.pattern_match p)
      else err (error "pattern_match: regexp")
  compile_kind contains p =
      if p.pattern == ""
      then err (error "pattern_match: pattern required")
      else ok (Compiled.pattern_match p)
  compile_kind (MatchKind.invalid s) p = err (error "pattern_match: invalid kind")

  compile_pattern_match : PatternMatch → Result Compiled
  unfolding compile_kind
  compile_pattern_match p =
      if p.field == "" then err (error "pattern_match: field required") else compile_kind p.kind p

  compile_sql : SqlReturnsRows → Result Compiled
  compile_sql s =
      if s.data_source == ""
      then err (error "sql_returns_rows: data_source required")
      else if trim_space s.query == ""
      then err (error "sql_returns_rows: query required")
      else ok (Compiled.sql s (if leb_ℤ s.min_rows (pos 0) then pos 1 else s.min_rows))

  -- The modes that `Expression.Compile` accepts: "", "push" and "scheduled".
  abbrev mode_is_valid : Mode → Bool
  mode_is_valid push = true
  mode_is_valid scheduled = true
  mode_is_valid (other s) = s == ""

  compile_expression : Expression → Result Compiled
  compile_expression e =
      let src = trim_space e.source in
      if src == ""
      then err (error "expression: expr required")
      else if not (mode_is_valid e.eval_mode)
      then err (error "expression: invalid mode")
      else if expr_compiles src
      then ok (Compiled.expression e)
      else err (error "expression: compile")

  -- The method `Compile` of the five condition types.
  unfoldable pub compile : Condition → Result Compiled
  unfolding compile_threshold compile_window_aggregate compile_pattern_match compile_sql
      compile_expression
  compile (threshold t) = compile_threshold t
  compile (window_aggregate w) = compile_window_aggregate w
  compile (pattern_match p) = compile_pattern_match p
  compile (sql_returns_rows s) = compile_sql s
  compile (expression e) = compile_expression e

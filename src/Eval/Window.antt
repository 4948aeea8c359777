-- ===== src/Eval/Window.antt =====
-- internal/eval/window.go: the rolling samples of numeric fields, and the aggregates over them.
pub mod Exact
use Prim.Native.String.{◌++◌ as ◌<>◌}
use signalwatch.Base.{
  ℕ, Bool, true, false, not, String, ◌==◌, List, [], ◌∷◌, ◌++◌, Option, none, some, if◌then◌else◌,
}
use signalwatch.Base.Int.{ℤ, pos, leb_ℤ}
use signalwatch.Base.Lists.{length, select}
use signalwatch.Base.Time.{Time, Duration, add, negate, before, after}
use signalwatch.Rule.Condition.{Float64, FloatOps}

pub record Sample : Type 0 where
  pub at : Time
  pub value : Float64

-- A field of a record: a `float32` is its bit pattern, and `other` is any other type, as the text
-- that `fmt` prints for it.
pub data Value : Type 0 where
  float64 : Float64 → Value
  float32 : ℕ → Value
  int int32 int64 : ℤ → Value
  string json_number other : String → Value

abbrev pub Fields : Type 0
Fields = List (String × Value)

-- Go's conversions to `float64`.
pub record Conversions : Type 0 where
  pub of_float32 : ℕ → Float64
  pub of_integer : ℤ → Float64

-- The map of the buffers; a key that is not there has no samples.
abbrev pub Buffers : Type 0
Buffers = String → List Sample

-- The key of a field of an input.
abbrev pub key_of : String → String → String
key_of ref field = (ref <> "/") <> field

-- `numeric`.
unfoldable pub numeric : Conversions → Value → Option Float64
numeric conv (float64 x) = some x
numeric conv (float32 x) = some (conv.of_float32 x)
numeric conv (int x) = some (conv.of_integer x)
numeric conv (int32 x) = some (conv.of_integer x)
numeric conv (int64 x) = some (conv.of_integer x)
numeric conv (string s) = none
numeric conv (json_number s) = none
numeric conv (other s) = none

abbrev pub append : String → Sample → Buffers → Buffers
append key s b = λ k. if k == key then b k ++ s ∷ [] else b k

-- One field: what is not a number is ignored.
abbrev pub observe_value : String → Time → Option Float64 → Buffers → Buffers
observe_value key now none b = b
observe_value key now (some x) b = append key (record { at = now; value = x }) b

-- The loop of `prune` over one buffer: it drops samples up to the first that is after the cutoff.
unfoldable pub drop_old : Time → List Sample → List Sample
drop_old cutoff [] = []
drop_old cutoff (s ∷ ss) =
    let rest = drop_old cutoff ss in if after s.at cutoff then s ∷ ss else rest

-- `prune`; a span that is not positive keeps everything.
unfoldable pub prune : Duration → Time → Buffers → Buffers
prune max_span now b =
    if leb_ℤ max_span (pos 0) then b else λ key. drop_old (add now (negate max_span)) (b key)

module _ (conv : Conversions) where
  -- The loop of `Observe` over the fields.
  unfoldable pub observe_fields : String → Fields → Time → Buffers → Buffers
  observe_fields ref [] at b = b
  observe_fields ref ((field, v) ∷ fs) at b =
      observe_fields ref fs at (observe_value (key_of ref field) at (numeric conv v) b)

  -- `Observe`, of a record of the time `at`, where the clock says `now`.
  unfoldable pub observe : Duration → String → Fields → Time → Time → Buffers → Buffers
  observe max_span ref fs at now b = prune max_span now (observe_fields ref fs at b)

-- `samples`: the clock is read twice, for the pruning and for the cutoff of the window.
unfoldable pub samples :
    Duration → String → String → Duration → Time → Time → Buffers → List Sample × Buffers
samples max_span ref field window now now' b =
    let b' = prune max_span now b in
    let cutoff = add now' (negate window) in
    (select (λ s. not (before s.at cutoff)) (b' (key_of ref field)), b')

module _ (fl : FloatOps) where
  open fl use {plus, divide, of_int, zero_float, lt as lt_float}

  abbrev pub sum_from : Float64 → List Sample → Float64
  sum_from acc [] = acc
  sum_from acc (s ∷ ss) = sum_from (plus acc s.value) ss

  abbrev pub min_from : Float64 → List Sample → Float64
  min_from m [] = m
  min_from m (s ∷ ss) = min_from (if lt_float s.value m then s.value else m) ss

  abbrev pub max_from : Float64 → List Sample → Float64
  max_from m [] = m
  max_from m (s ∷ ss) = max_from (if lt_float m s.value then s.value else m) ss

  -- `AvgOver`, `SumOver`, `MinOver`, `MaxOver` and `CountOver`, of the samples of the window.
  unfoldable pub avg_over : List Sample → Option Float64
  avg_over [] = none
  avg_over (s ∷ ss) = some (divide (sum_from zero_float (s ∷ ss)) (of_int (length (s ∷ ss))))

  unfoldable pub sum_over : List Sample → Option Float64
  sum_over [] = none
  sum_over (s ∷ ss) = some (sum_from zero_float (s ∷ ss))

  unfoldable pub min_over : List Sample → Option Float64
  min_over [] = none
  min_over (s ∷ ss) = some (min_from s.value ss)

  unfoldable pub max_over : List Sample → Option Float64
  max_over [] = none
  max_over (s ∷ ss) = some (max_from s.value ss)

  unfoldable pub count_over : List Sample → ℕ
  count_over ss = length ss

-- ===== src/Eval/Conditions/History.antt =====
-- A window_aggregate condition on the window buffers, against all that was ever observed.
use signalwatch.Base.{sym, false, String, ◌≡◌, refl, subst, List, [], Bool, Option, none, some}
use signalwatch.Base.Int.{◌≤ℤ◌, ◌<ℤ◌}
use signalwatch.Base.Lists.{All, select}
use signalwatch.Base.Result.{Result, ok}
use signalwatch.Base.Time.{Time, Duration, add, negate}
use signalwatch.Rule.Condition.{Float64, WindowAggregate, Compiled, compare}
use signalwatch.Eval.Window.{Buffers, samples}
use signalwatch.Eval.Window.Exact.{Observation, Apart, recent, history, observe_all, samples_exact}
use signalwatch.Eval.Conditions.{Runtime, Helpers, aggregate, aggregate_on, eval, eval_aggregate}
use signalwatch.Eval.Conditions.Aggregates.{IsStrict, IsAggregate, values, aggregate-IsAggregate}

-- `Helpers` of window.go: the samples of an input, where the clock says `now` and then `now'`.
unfoldable pub bound : Duration → String → Time → Time → Buffers → Helpers
bound span ref now now' b field window = (samples span ref field window now now' b).0

module _ (rt : Runtime) where
  -- Not triggered where there is no answer, and else the comparison of the answer with the value of
  -- the condition.
  abbrev pub Answers : WindowAggregate → Option Float64 → Result (Bool × String) → Type 0
  Answers w none r = r ≡ ok (false, "")
  Answers w (some x) r = (text : String) × (r ≡ ok (compare rt.floats w.op x w.value, text))

  aggregate_on-Answers :
      (w : WindowAggregate) (o : Option Float64) → Answers w o (aggregate_on rt w o)
  aggregate_on-Answers w none = refl
  aggregate_on-Answers w (some x) = (rt.aggregate_text w x, refl)

  -- A window_aggregate condition answers as if nothing were ever pruned. After any observations, its
  -- evaluation compares the aggregate, which is the sum, the sum over the number, a least or a greatest
  -- value, or the number, of all samples of its field that were ever observed and are not older than
  -- its window, and is not triggered where an aggregate other than the number has no sample. No other
  -- input and field among the observations read the same joined by a slash, the order of floats is
  -- strict, the window is shorter than the span that is kept, and the clock at the end of the read
  -- is not behind the clock at any call before.
  pub eval-Answers :
      (span : Duration) (os : List Observation) (ref : String) (w : WindowAggregate)
      (now now' : Time)
      → IsStrict rt.floats.lt
      → Apart rt.conv ref w.field os
      → All (λ o. o.now ≤ℤ now') os
      → now ≤ℤ now'
      → w.window <ℤ span
      → let b = observe_all rt.conv span os (λ k. []) in
        let ss = select (recent (add now' (negate w.window))) (history rt.conv ref w.field os) in
        (o : Option Float64) × IsAggregate rt.floats w.agg (values ss) o
        × Answers w o
            (eval rt (Compiled.window_aggregate w) (some (bound span ref now now' b)) none)
  unfolding eval eval_aggregate bound
  eval-Answers span os ref w now now' strict apart clock later wide =
      let ss = select (recent (add now' (negate w.window))) (history rt.conv ref w.field os) in
      let same =
        samples_exact rt.conv ref w.field span os w.window now now' apart clock later wide in
      (
        aggregate rt w.agg ss,
        aggregate-IsAggregate rt w.agg ss strict,
        subst (λ l. Answers w (aggregate rt w.agg ss) (aggregate_on rt w (aggregate rt w.agg l)))
            (sym same) (aggregate_on-Answers w (aggregate rt w.agg ss)),
      )

-- ===== src/Eval/Scheduled.antt =====
-- `ScheduledEvaluator` of internal/eval/eval.go: one evaluation, and one wake-up of the loop.
pub mod Errors
pub mod Due
use signalwatch.Base.{
  ℕ, Bool, true, false, not, ◌&&◌, String, ◌==◌, List, [], ◌∷◌, ◌++◌, Option, none, some,
  if◌then◌else◌,
}
use signalwatch.Base.Int.{ℤ, ltb_ℤ, leb_ℤ}
use signalwatch.Base.Result.{Error, Result, ok, err}
use signalwatch.Base.Time.{Time, sub as elapsed, is_zero, zero_time}
use signalwatch.Rule.Condition.{Compiled, SqlReturnsRows}
use signalwatch.Rule.Model.{Rule}
use signalwatch.Rule.State.{LiveState}
use signalwatch.Store.LiveStates
use signalwatch.Eval.Cache.{Cache, CompiledRule, scheduled}
use signalwatch.Eval.Conditions.{Runtime, Helpers, eval}
use signalwatch.Dispatcher.World.{World, Env}
use signalwatch.Dispatcher.Tick.{tick, or_seed}

-- What an evaluation reads: the number of rows that a query has in a data source, the samples of
-- the windows of an input at a time, what the libraries do, the texts of a count and of an error,
-- and what the clock says when the dispatcher ticks a rule that was woken at a time.
pub record Sources : Type 0 where
  pub count_rows : String → String → Time → Result ℤ
  pub runtime : Runtime
  pub helpers : String → Time → Helpers
  pub show_rows : ℤ → ℤ → String
  pub error_text : Error → String
  pub tick_at : String → Time → Time

-- The times of the last evaluations; the zero time where there is none.
abbrev pub Last : Type 0
Last = String → Time

-- Whether the schedule of a rule has elapsed.
abbrev pub is_due : Rule → Last → Time → Bool
is_due r last now = not (not (is_zero (last r.id)) && ltb_ℤ (elapsed now (last r.id)) r.schedule)

abbrev pub note : String → Time → Last → Last
note id now last = λ j. if j == id then now else last j

module _ (env : Env) (src : Sources) where
  open src use {count_rows, runtime, helpers, show_rows, error_text, tick_at}

  abbrev pub counted : ℤ → Result ℤ → Result (Bool × String)
  counted min_rows (ok n) = ok (leb_ℤ min_rows n, show_rows n min_rows)
  counted min_rows (err e) = err e

  -- The outcome of the condition at the time `now`.
  unfoldable pub outcome : Compiled → String → Time → Result (Bool × String)
  outcome (Compiled.sql s min_rows) ref now =
      counted min_rows (count_rows s.data_source s.query now)
  outcome c ref now = eval runtime c (some (helpers ref now)) none

  -- A live state that could not be read counts as none.
  abbrev pub or_none : Result (Option LiveState) → Option LiveState
  or_none (ok found) = found
  or_none (err e) = none

  -- The live state with the error of an evaluation.
  abbrev pub failed : String → Error → Time → Option LiveState → LiveState
  failed id e now found = record (or_seed id found) {
    last_eval_at = now;
    last_error = error_text e;
  }

  -- The branch of an error: it is written into the live state.
  unfoldable pub surface : Rule → Error → Time → World → World
  surface r e now w =
      let (found, db) = LiveStates.get r.id w.db in
      record w { db = (LiveStates.upsert (failed r.id e now (or_none found)) db).1 }

  abbrev pub settle_outcome : Rule → Time → Result (Bool × String) → World → World
  settle_outcome r now (err e) w = surface r e now w
  settle_outcome r now (ok (triggered, value)) w =
      (tick env r triggered value (tick_at r.id now) w).1

  -- `evalOne`.
  unfoldable pub eval_one : CompiledRule → Time → World → World
  eval_one cr now w = settle_outcome cr.rule now (outcome cr.compiled cr.rule.input_ref now) w

  -- The loop of one wake-up over the scheduled rules.
  unfoldable pub eval_due : List CompiledRule → Time → Last × World → Last × World
  eval_due [] now s = s
  eval_due (cr ∷ crs) now (last, w) =
      eval_due crs now (
        if is_due cr.rule last now
        then (note cr.rule.id now last, eval_one cr now w)
        else (last, w))

  -- One wake-up.
  unfoldable pub wake : Cache → Time → Last × World → Last × World
  wake cache now s = eval_due (scheduled cache) now s

-- ===== src/Tests/Evals.antt =====
-- The scheduled evaluator and the windows at small inputs.
use signalwatch.Base.{
  ltb, Option, false, true, String, ◌≡◌, refl, [], ◌∷◌, List, none, some, if◌then◌else◌, arith,
}
use signalwatch.Base.Int.{pos}
use signalwatch.Base.Lists.{any, find, select}
use signalwatch.Base.Result.{ok, err, error}
use signalwatch.Base.Time.{zero_time, add, negate}
use signalwatch.Rule.Condition.{
  Condition, Compiled, Op, Agg, Float64, FloatOps, WindowAggregate, mode, expression_mode,
}
use signalwatch.Eval.Conditions.{Runtime, eval}
use signalwatch.Eval.Conditions.History.{Answers, bound, eval-Answers}
use signalwatch.Eval.Conditions.Aggregates.{IsStrict, IsAggregate, values}
use signalwatch.Eval.Push.{Arrival, Push, push_all}
use signalwatch.Eval.Push.Trail.{ticked_all, push_all-IsAudited}
use signalwatch.Dispatcher.Deliver.Audit.{IsAudited}
use signalwatch.Tests.Dispatch.{start-IsAudited}
use signalwatch.Rule.Model.{Rule}
use signalwatch.Store.LiveStates
use signalwatch.Store.LiveStates.{has_rule, found}
use signalwatch.Rule.State.{State, LiveState}
use signalwatch.Eval.Cache.{Cache, CompiledRule, scheduled}
use signalwatch.Eval.Cache
use signalwatch.Eval.Scheduled.{Sources, Last, eval_one, outcome, wake}
use signalwatch.Eval.Scheduled.Errors.{with_error, eval_one_error, eval_one_read_error}
use signalwatch.Eval.Scheduled.Due.{Distinct, due, eval_all, wake_exact}
use signalwatch.Eval.Window.{Conversions, Value, samples}
use signalwatch.Eval.Window.Exact.{Observation, Apart, recent, history, observe_all, samples_exact}
use signalwatch.Dispatcher.World.{World}
use signalwatch.Tests.Data.{ann_db, env, hot, start, tally-injective}

abbrev query : Condition
query =
    Condition.sql_returns_rows
      (record { data_source = "main"; query = "select 1"; min_rows = pos 1 })

abbrev job : Rule
job = record hot { condition = some query; schedule = pos 60000000000 }

abbrev job_entry : CompiledRule
job_entry = record {
  rule = job;
  compiled =
      Compiled.sql (record { data_source = "main"; query = "select 1"; min_rows = pos 1 }) (pos 1);
}

abbrev floats : FloatOps
floats = record {
  lt = ltb;
  le = λ a b. true;
  eq = λ a b. true;
  plus = λ a b. a;
  divide = λ a b. a;
  of_int = λ n. n;
  zero_float = 0;
}

abbrev conv : Conversions
conv = record { of_float32 = λ x. x; of_integer = λ n. 0 }

abbrev rt : Runtime
rt = record {
  floats = floats;
  conv = conv;
  parse_float = λ s. none;
  regexp_matches = λ p s. false;
  text_contains = λ s t. false;
  show_value = λ v. "";
  threshold_text = λ t x. "";
  aggregate_text = λ w x. "";
  pattern_text = λ p b. "";
  expression_text = λ s b. "";
  run_expression = λ s r h. err (error "no expressions");
}

-- The data source cannot be reached.
abbrev down : Sources
down = record {
  count_rows = λ ds q now. err (error "down");
  runtime = rt;
  helpers = λ ref now field window. [];
  show_rows = λ n m. "";
  error_text = λ e. "down";
  tick_at = λ id now. now;
}

abbrev faulty : World
faulty = record start { db = record ann_db { faults = true ∷ [] } }

job-fails :
    outcome env down job_entry.compiled job_entry.rule.input_ref (pos 5) ≡ err (error "down")
unfolding outcome
job-fails = refl

eval_one_error_example :
    let w = eval_one env down job_entry (pos 5) start in
    ((LiveStates.get "hot" w.db).0
      ≡ ok (
          some
            (with_error "hot" "down" (pos 5) (found (find (has_rule "hot") ann_db.live_states)))))
    × (w ≡ record start { db = record ann_db { live_states = w.db.live_states } })
eval_one_error_example =
    eval_one_error env down job_entry (pos 5) (error "down") start refl job-fails

eval_one_read_error_example :
    let w = eval_one env down job_entry (pos 5) faulty in
    (s : LiveState) × ((LiveStates.get "hot" w.db).0 ≡ ok (some s))
    × (s.state ≡ State.ok)
    × (s.incident_id ≡ "")
    × (s.last_error ≡ "down")
    × (w.db.incidents ≡ ann_db.incidents)
eval_one_read_error_example =
    eval_one_read_error env down job_entry (pos 5) (error "down") faulty refl job-fails

abbrev jobs : Cache
jobs = job_entry ∷ []

abbrev never : Last
never = λ id. zero_time

jobs-Distinct : Distinct (scheduled jobs)
unfolding scheduled select any mode expression_mode
jobs-Distinct = (refl, tt)

wake_exact_example :
    let run = select (due never (pos 5)) (scheduled jobs) in
    ((wake env down jobs (pos 5) (never, start)).1 ≡ eval_all env down run (pos 5) start)
    × ((id : String)
        → (wake env down jobs (pos 5) (never, start)).0 id
          ≡ (if any (Cache.has_rule id) run then pos 5 else zero_time))
wake_exact_example = wake_exact env down jobs (pos 5) never start jobs-Distinct

-- Two readings of a temperature, one second apart; the span is one hour, the window a minute.
abbrev readings : List Observation
readings =
    record {
      ref = "events";
      fields = ("t", Value.float64 7) ∷ ("name", Value.other "string") ∷ [];
      at = pos 1000000000;
      now = pos 1000000000;
    }
    ∷ record {
      ref = "events";
      fields = ("t", Value.float64 9) ∷ [];
      at = pos 2000000000;
      now = pos 2000000000;
    }
    ∷ []

readings-Apart : Apart conv "events" "t" readings
readings-Apart = ((refl, (refl, tt)), ((refl, tt), tt))

samples_exact_example :
    (samples
      (pos 3600000000000)
      "events"
      "t"
      (pos 60000000000)
      (pos 3000000000)
      (pos 3000000000)
      (observe_all conv (pos 3600000000000) readings (λ k. []))).0
    ≡ select
        (recent (add (pos 3000000000) (negate (pos 60000000000))))
        (history conv "events" "t" readings)
samples_exact_example =
    samples_exact conv "events" "t" (pos 3600000000000) readings (pos 60000000000) (pos 3000000000)
      (pos 3000000000) readings-Apart (ground arith) (ground arith) (ground arith)

-- The highest reading in a minute is at least one.
abbrev highest : WindowAggregate
highest = record { field = "t"; agg = Agg.max; window = pos 60000000000; op = Op.gte; value = 1 }

ltb-IsStrict : IsStrict floats.lt
ltb-IsStrict = ((λ a. ground arith), λ a b c x y. ground arith)

eval-Answers_example :
    let b = observe_all conv (pos 3600000000000) readings (λ k. []) in
    let ss =
      select
        (recent (add (pos 3000000000) (negate (pos 60000000000))))
        (history conv "events" "t" readings) in
    (o : Option Float64) × IsAggregate floats Agg.max (values ss) o
    × Answers rt highest o (
        eval rt
          (Compiled.window_aggregate highest)
          (some (bound (pos 3600000000000) "events" (pos 3000000000) (pos 3000000000) b))
          none)
eval-Answers_example =
    eval-Answers rt (pos 3600000000000) readings "events" highest (pos 3000000000) (pos 3000000000)
      ltb-IsStrict readings-Apart (ground arith) (ground arith) (ground arith)

abbrev hot_entry : CompiledRule
hot_entry = record {
  rule = hot;
  compiled = Compiled.threshold (record { field = "t"; op = Op.gte; value = 5 });
}

abbrev arrivals : List Arrival
arrivals =
    record {
      input_ref = "events";
      fields = some (("t", Value.float64 7) ∷ []);
      at = pos 1000000000;
      cache = hot_entry ∷ [];
      now = pos 1000000001;
      tick_at = λ id. pos 1000000002;
    }
    ∷ []

abbrev waiting : Push
waiting = record { buffers = λ k. []; world = start }

push_all-IsAudited_example :
    ((push_all env rt (pos 3600000000000) arrivals waiting).world
      ≡ ticked_all env tally-injective rt arrivals start)
    × IsAudited env (push_all env rt (pos 3600000000000) arrivals waiting).world
push_all-IsAudited_example =
    push_all-IsAudited env tally-injective rt (pos 3600000000000) arrivals waiting start-IsAudited

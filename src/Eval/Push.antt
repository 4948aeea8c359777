-- ===== src/Eval/Push.antt =====
-- `PushEvaluator` of internal/eval/eval.go: the records in the order in which they come.
pub mod Trail
use signalwatch.Base.{Bool, true, false, String, List, [], ◌∷◌, Option, none, some, if◌then◌else◌}
use signalwatch.Base.Result.{Error, Result, ok, err}
use signalwatch.Base.Time.{Time, Duration}
use signalwatch.Rule.Model.{Rule}
use signalwatch.Eval.Cache.{Cache, CompiledRule, by_input, on_schedule}
use signalwatch.Eval.Window.{Fields, Buffers, observe}
use signalwatch.Eval.Conditions.{Runtime, eval}
use signalwatch.Dispatcher.World.{World, Env}
use signalwatch.Dispatcher.Tick.{tick}

-- `input.EvaluationRecord` (a record may be nil), with what the cache holds and what the clock says
-- when it is taken, and when the dispatcher ticks a rule.
pub record Arrival : Type 0 where
  pub input_ref : String
  pub fields : Option Fields
  pub at : Time
  pub cache : Cache
  pub now : Time
  pub tick_at : String → Time

pub record Push : Type 0 where
  pub buffers : Buffers
  pub world : World

-- A nil map has no fields.
abbrev pub or_empty : Option Fields → Fields
or_empty none = []
or_empty (some fs) = fs

module _ (env : Env) (rt : Runtime) where
  -- An error of an evaluation or of a `Tick` only goes to the log.
  abbrev pub settle_push : Rule → Time → Result (Bool × String) → World → World
  settle_push r now (err e) w = w
  settle_push r now (ok (triggered, value)) w = (tick env r triggered value now w).1

  -- One rule of the input: only a push-mode rule is evaluated, with no helpers.
  unfoldable pub push_one : Arrival → CompiledRule → World → World
  push_one a cr w =
      if on_schedule cr.rule.condition
      then w
      else settle_push cr.rule (a.tick_at cr.rule.id) (eval rt cr.compiled none a.fields) w

  -- The loop over the rules of the input.
  unfoldable pub push_rules : Arrival → List CompiledRule → World → World
  push_rules a [] w = w
  push_rules a (cr ∷ crs) w = push_rules a crs (push_one a cr w)

  -- One record.
  unfoldable pub push_record : Duration → Arrival → Push → Push
  push_record span a p = record {
    buffers = observe rt.conv span a.input_ref (or_empty a.fields) a.at a.now p.buffers;
    world = push_rules a (by_input a.input_ref a.cache) p.world;
  }

  -- `Run`, over the records of the channel.
  unfoldable pub push_all : Duration → List Arrival → Push → Push
  push_all span [] p = p
  push_all span (a ∷ rest) p = push_all span rest (push_record span a p)

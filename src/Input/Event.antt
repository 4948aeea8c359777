-- ===== src/Input/Event.antt =====
-- internal/input/event/event.go, `Engine.Submit` of engine/engine.go, and `postEvent` of
-- internal/api/api.go: a record on its way from a request to the engine's sink.
pub mod Arrival
use signalwatch.Base.{
  Bool, true, false, String, ◌==◌, ◌≡◌, List, [], ◌∷◌, ◌++◌, Option, none, some, if◌then◌else◌,
}
use signalwatch.Base.Result.{Error, Result, ok, err, error, Exec}
use signalwatch.Base.Time.{Time}
use signalwatch.Eval.Window.{Fields}
use signalwatch.Input.Message.{EvaluationRecord}
use signalwatch.Api.Reply.{Reply, failed, bare, Handling, answer, given, calling}

-- `Input`: its name, and the sink once it is started. The sink is the list of the records in it.
pub record EventInput : Type 0 where
  pub name : String
  pub sink : Option (List EvaluationRecord)

-- `New`.
unfoldable pub new : String → EventInput
new name = record { name = if name == "" then "events" else name; sink = none }

-- The two ends of `Start`: the sink is set, and unset once the context is done.
unfoldable pub started : List EvaluationRecord → EventInput → EventInput
started sink i = record i { sink = some sink }

unfoldable pub stopped : EventInput → EventInput
stopped i = record i { sink = none }

-- A call: the time, and whether the sink takes the record before the caller's context is done.
pub record Call : Type 0 where
  pub now : Time
  pub takes : Bool

abbrev pub ref_or_name : String → String → String
ref_or_name name ref = if ref == "" then name else ref

-- `Submit`.
unfoldable pub submit : Call → String → Option Fields → Exec EventInput (Unit {0})
submit c ref fields i = elim i.sink [
  | none ↦ (err (error "event input: not started"), i)
  | some sink ↦
      if c.takes
      then (
        ok tt,
        record i {
          sink = some (
              sink
              ++ record { input_ref = ref_or_name i.name ref; at = c.now; fields = fields } ∷ []);
        },
      )
      else (err (error "context canceled"), i)
]

-- `Engine.Submit`: an engine may have no event input.
unfoldable pub submit_event : Call → String → Option Fields → Exec (Option EventInput) (Unit {0})
submit_event c ref fields none = (err (error "engine: no EventInput configured"), none)
submit_event c ref fields (some i) = let (r, i') = submit c ref fields i in (r, some i')

-- `eventPayload`; a body with no record leaves that field nil.
pub record Payload : Type 0 where
  pub input_ref : String
  pub fields : Option Fields

abbrev pub submitted : Call → String → Option Fields → Handling (Option EventInput) (Unit {0})
submitted c ref none = answer (failed 400 (error "record is required"))
submitted c ref (some fs) = calling 500 (submit_event c ref (some fs)) λ _. answer (bare 202)

-- `postEvent`.
unfoldable pub post_event : Call → Result Payload → Handling (Option EventInput) (Unit {0})
post_event c body = given 400 body λ p. submitted c p.input_ref p.fields

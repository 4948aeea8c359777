-- ===== src/Input/Event/Arrival.antt =====
-- What a posted event does to the engine's sink.
use signalwatch.Base.{
  arith, eq_iff, false, String, ◌≡◌, ◌⊎◌, ◌≢◌, refl, List, [], ◌∷◌, ◌++◌, Option, none, some,
  Bool-cases, inl, inr,
}
use signalwatch.Base.Result.{Result, ok, err}
use signalwatch.Eval.Window.{Fields}
use signalwatch.Input.Message.{EvaluationRecord}
use signalwatch.Input.Event.{
  EventInput, Call, Payload, ref_or_name, submit, submit_event, post_event, submitted,
}
use signalwatch.Api.Reply.{Reply, status}

-- The sink of the engine's event input, where it has one that is started.
abbrev pub sink_of : Option EventInput → Option (List EvaluationRecord)
sink_of none = none
sink_of (some i) = i.sink

-- The record of a payload: it has the time of the call and the fields, and the input that the payload
-- names, or the name of the event input where it names none.
abbrev pub IsArrival : Call → EventInput → Payload → Fields → EvaluationRecord → Type 0
IsArrival c i p fs r =
    (r.at ≡ c.now)
    × (r.fields ≡ some fs)
    × (p.input_ref ≢ "" → r.input_ref ≡ p.input_ref)
    × (p.input_ref ≡ "" → r.input_ref ≡ i.name)

named :
    (name ref : String)
    → (ref ≢ "" → ref_or_name name ref ≡ ref) × (ref ≡ "" → ref_or_name name ref ≡ name)
named name ref = (λ ne. ground (arith, eq_iff ref ""), λ e. ground (arith, eq_iff ref ""))

-- Accepted: the record stands at the end of the sink, and nothing else changed.
abbrev pub Arrived : Call → Payload → Option EventInput → Option EventInput → Type 0
Arrived c p before after =
    (i : EventInput) × (fs : Fields) × (sink : List EvaluationRecord) × (r : EvaluationRecord)
    × (before ≡ some i)
    × (p.fields ≡ some fs)
    × (i.sink ≡ some sink)
    × IsArrival c i p fs r
    × (after ≡ some (record i { sink = some (sink ++ r ∷ []) }))

abbrev pub Outcome :
    Call → Result Payload → Option EventInput → Reply (Unit {0}) × Option EventInput → Type 0
Outcome c (err e) before (reply, after) = (status reply ≡ 400) × (after ≡ before)
Outcome c (ok p) before (reply, after) =
    ((status reply ≡ 202) × Arrived c p before after)
    ⊎ ((status reply ≡ 400) × (p.fields ≡ none) × (after ≡ before))
    ⊎ ((status reply ≡ 500)
        × ((sink_of before ≡ none) ⊎ (c.takes ≡ false))
        × (p.fields ≢ none)
        × (after ≡ before))

submitted-Outcome :
    (c : Call) (ref : String) (fields : Option Fields) (name : String)
    (sink : Option (List EvaluationRecord))
    → let p : Payload = record { input_ref = ref; fields = fields } in
      let i : EventInput = record { name = name; sink = sink } in
      Outcome c (ok p) (some i) (submitted c ref fields (some i))
unfolding submit_event submit status
submitted-Outcome c ref none name sink = inr (inl (refl, refl, refl))
submitted-Outcome c ref (some fs) name none = inr (inr (refl, inl refl, (λ e. cc), refl))
submitted-Outcome c ref (some fs) name (some sink) = elim (Bool-cases c.takes) [
  | inl takes ↦ simp (takes) (
      inl (
        refl,
        (
          record { name = name; sink = some sink },
          fs,
          sink,
          record { input_ref = ref_or_name name ref; at = c.now; fields = some fs },
          refl,
          refl,
          refl,
          (refl, refl, (named name ref).0, (named name ref).1),
          refl,
        ),
      ))
  | inr cut ↦ simp (cut) (inr (inr (refl, inr refl, (λ e. cc), refl)))
]

no_input-Outcome :
    (c : Call) (ref : String) (fields : Option Fields)
    → let p : Payload = record { input_ref = ref; fields = fields } in
      Outcome c (ok p) none (submitted c ref fields none)
unfolding submit_event status
no_input-Outcome c ref none = inr (inl (refl, refl, refl))
no_input-Outcome c ref (some fs) = inr (inr (refl, inl refl, (λ e. cc), refl))

-- A posted event is answered 202 exactly where its record entered the engine's sink: at the end,
-- once, under its own input or else the name of the event input. Otherwise the answer is 400 for
-- a body that does not parse or has no record, or 500, and the sink is as it was: there is no event
-- input, it is not started, or the request ended first.
pub post_event_arrives :
    (c : Call) (body : Result Payload) (before : Option EventInput)
    → Outcome c body before (post_event c body before)
unfolding post_event status
post_event_arrives c (err e) before = (refl, refl)
post_event_arrives c (ok p) none = no_input-Outcome c p.input_ref p.fields
post_event_arrives c (ok p) (some i) = submitted-Outcome c p.input_ref p.fields i.name i.sink

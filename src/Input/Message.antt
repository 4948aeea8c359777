-- ===== src/Input/Message.antt =====
-- `input.EvaluationRecord` of internal/input/input.go, `parseMessage` of the stream inputs (which
-- is the same function in each of the four), and what an input does with a message.
use signalwatch.Base.{String, ◌==◌, List, [], ◌∷◌, Option, none, some, if◌then◌else◌}
use signalwatch.Base.Result.{Result, ok, err}
use signalwatch.Base.Time.{Time, is_zero}
use signalwatch.Eval.Window.{Fields}

-- A record, which may be nil, with its input and its time.
pub record EvaluationRecord : Type 0 where
  pub input_ref : String
  pub at : Time
  pub fields : Option Fields

-- What `json.Unmarshal` into an `any` gives: an object, or a value of another type.
pub data Json : Type 0 where
  object : Fields → Json
  no_object : Json

abbrev pub fields_of : Result Json → Option Fields
fields_of (ok (object fs)) = some fs
fields_of (ok no_object) = none
fields_of (err e) = none

-- `parseMessage`, given `json.Unmarshal`.
unfoldable pub parse_message : (String → Result Json) → String → Option Fields
parse_message unmarshal body = if body == "" then none else fields_of (unmarshal body)

-- The time of a message, or the present where it has none.
abbrev pub or_now : Time → Time → Time
or_now now t = if is_zero t then now else t

-- What an input does: it hands the record of a message to the engine's sink, or settles the
-- message with its broker. Messages are named by their tags.
pub data Act : Type 0 where
  hand : String → EvaluationRecord → Act
  ack nack reject delete : String → Act

-- The records that were handed over, in order.
unfoldable pub handed : List Act → List EvaluationRecord
handed [] = []
handed (hand tag r ∷ acts) = r ∷ handed acts
handed (ack tag ∷ acts) = handed acts
handed (nack tag ∷ acts) = handed acts
handed (reject tag ∷ acts) = handed acts
handed (delete tag ∷ acts) = handed acts

-- ===== src/Input/Kafka.antt =====
-- internal/input/stream/kafka/kafka.go.
use signalwatch.Base.{
  Bool, true, false, String, ◌==◌, List, [], ◌∷◌, Option, none, some, if◌then◌else◌,
}
use signalwatch.Base.Int.{ℤ, pos, leb_ℤ, eqb_ℤ}
use signalwatch.Base.Result.{Result, ok, err, error}
use signalwatch.Base.Time.{Time, Duration}
use signalwatch.Eval.Window.{Fields}
use signalwatch.Input.Message.{EvaluationRecord, Json, parse_message, or_now, Act, hand}

-- `Topic`.
pub record Topic : Type 0 where
  pub name : String
  pub group_id : String
  pub min_bytes : ℤ
  pub max_bytes : ℤ

-- `SASLConfig`.
pub record Sasl : Type 0 where
  pub mechanism : String
  pub region : String

-- `Config`, less the logger and the functions that are injected.
pub record Config : Type 0 where
  pub brokers : List String
  pub topics : List Topic
  pub sasl : Option Sasl
  pub dial_timeout : Duration

abbrev pub or_default : ℤ → ℤ → ℤ
or_default d n = if eqb_ℤ n (pos 0) then d else n

abbrev pub topic_defaults : Topic → Topic
topic_defaults t = record t {
  min_bytes = or_default (pos 1) t.min_bytes;
  max_bytes = or_default (pos 10485760) t.max_bytes;
}

abbrev pub cons_ok : {A : Type 0} → A → Result (List A) → Result (List A)
cons_ok a (ok rest) = ok (a ∷ rest)
cons_ok a (err e) = err e

abbrev pub timeout_default : Duration → Duration
timeout_default d = if leb_ℤ d (pos 0) then pos 10000000000 else d

module _ (trim_space : String → String) where
  -- The loop over the topics.
  unfoldable pub check_topics : List Topic → Result (List Topic)
  check_topics [] = ok []
  check_topics (t ∷ topics) =
      let rest = check_topics topics in
      if trim_space t.name == ""
      then err (error "kafka input: topic name required")
      else if trim_space t.group_id == ""
      then err (error "kafka input: topic requires GroupID")
      else cons_ok (topic_defaults t) rest

  unfoldable pub check_sasl : Option Sasl → Result (Unit {0})
  check_sasl none = ok tt
  check_sasl (some s) =
      if s.mechanism == "AWS_MSK_IAM"
      then if trim_space s.region == ""
        then err (error "kafka input: SASL mechanism requires Region")
        else ok tt
      else err (error "kafka input: unsupported SASL mechanism")

  abbrev pub finish : Config → Result (List Topic) → Result (Unit {0}) → Result Config
  finish c (err e) sasl = err e
  finish c (ok topics) (err e) = err e
  finish c (ok topics) (ok u) =
      ok (record c { topics = topics; dial_timeout = timeout_default c.dial_timeout })

  -- `New`.
  unfoldable pub new : Config → Result Config
  unfolding check_topics check_sasl
  new c = elim c.brokers [
    | [] ↦ err (error "kafka input: brokers required")
    | b ∷ brokers ↦ elim c.topics [
      | [] ↦ err (error "kafka input: at least one topic required")
      | t ∷ topics ↦ finish c (check_topics (t ∷ topics)) (check_sasl c.sasl)
    ]
  ]

-- `kg.Message`, as far as it is read.
pub record Message : Type 0 where
  pub tag : String
  pub value : String
  pub time : Time

-- What one turn of the loop meets: `ReadMessage` returns an error that ends the input (the context
-- is done, or the reader is closed) or another one, or a message at the time `now`, which the sink
-- takes unless the context is done first.
pub data Turn : Type 0 where
  ended transient : Turn
  message : Message → Time → Bool → Turn

module _ (unmarshal : String → Result Json) (t : Topic) where
  abbrev pub record_of : Message → Time → Fields → EvaluationRecord
  record_of m now fs = record { input_ref = t.name; at = or_now now m.time; fields = some fs }

  abbrev pub respond : Message → Time → Bool → Option Fields → List Act × Bool → List Act × Bool
  respond m now takes none rest = rest
  respond m now takes (some fs) rest =
      if takes then (hand m.tag (record_of m now fs) ∷ rest.0, rest.1) else ([], false)

  -- The loop of `runTopic`: what it hands over, and whether it still runs.
  unfoldable pub run_topic : List Turn → List Act × Bool
  run_topic [] = ([], true)
  run_topic (ended ∷ turns) = ([], false)
  run_topic (transient ∷ turns) = run_topic turns
  run_topic (message m now takes ∷ turns) =
      respond m now takes (parse_message unmarshal m.value) (run_topic turns)

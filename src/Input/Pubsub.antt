-- ===== src/Input/Pubsub.antt =====
-- internal/input/stream/pubsub/pubsub.go.
use signalwatch.Base.{map, Bool, String, ◌==◌, List, [], ◌∷◌, Option, none, some, if◌then◌else◌}
use signalwatch.Base.Result.{Result, ok, err, error}
use signalwatch.Base.Time.{Time}
use signalwatch.Eval.Window.{Fields}
use signalwatch.Input.Message.{EvaluationRecord, Json, parse_message, or_now, Act, hand, ack, nack}
use signalwatch.Input.Kafka.{cons_ok}

-- `Subscription`.
pub record Subscription : Type 0 where
  pub name : String
  pub subscription_id : String

-- `Config`, less the logger and the factory that are injected.
pub record Config : Type 0 where
  pub project_id : String
  pub subscriptions : List Subscription

-- `if x == "" { x = d }`.
abbrev pub or_text : String → String → String
or_text d s = if s == "" then d else s

module _ (trim_space : String → String) where
  -- The loop over the subscriptions.
  unfoldable pub check_subscriptions : List Subscription → Result (List Subscription)
  check_subscriptions [] = ok []
  check_subscriptions (s ∷ subs) =
      let rest = check_subscriptions subs in
      if trim_space s.name == ""
      then err (error "pubsub input: subscription Name required")
      else cons_ok (record s { subscription_id = or_text s.name s.subscription_id }) rest

  abbrev pub finish : Config → Result (List Subscription) → Result Config
  finish c (err e) = err e
  finish c (ok subs) = ok (record c { subscriptions = subs })

  -- `New`.
  unfoldable pub new : Config → Result Config
  unfolding check_subscriptions
  new c =
      if trim_space c.project_id == ""
      then err (error "pubsub input: ProjectID required")
      else elim c.subscriptions [
        | [] ↦ err (error "pubsub input: at least one subscription required")
        | s ∷ subs ↦ finish c (check_subscriptions (s ∷ subs))
      ]

-- `Message`, with its name at the broker.
pub record Message : Type 0 where
  pub tag : String
  pub body : String
  pub publish_time : Time

-- A message that comes at the time `now`, which the sink takes unless the context is done first.
pub record Delivery : Type 0 where
  pub message : Message
  pub now : Time
  pub takes : Bool

module _ (unmarshal : String → Result Json) (s : Subscription) where
  abbrev pub record_of : Delivery → Fields → EvaluationRecord
  record_of d fs = record {
    input_ref = s.name;
    at = or_now d.now d.message.publish_time;
    fields = some fs;
  }

  abbrev pub respond : Delivery → Option Fields → List Act
  respond d none = nack d.message.tag ∷ []
  respond d (some fs) =
      if d.takes
      then hand d.message.tag (record_of d fs) ∷ ack d.message.tag ∷ []
      else nack d.message.tag ∷ []

  -- `handleMessage`.
  unfoldable pub handle_message : Delivery → List Act
  handle_message d = respond d (parse_message unmarshal d.message.body)

  -- `Receive` of `runSubscription`: what the handler does for each message. The client runs the
  -- handlers concurrently: the acts of one are in order, and nothing is said of those of two.
  unfoldable pub run_subscription : List Delivery → List (List Act)
  unfolding handle_message
  run_subscription ds = map handle_message ds

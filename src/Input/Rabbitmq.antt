-- ===== src/Input/Rabbitmq.antt =====
-- internal/input/stream/rabbitmq/rabbitmq.go.
use Prim.Native.String.{◌++◌ as ◌<>◌}
use signalwatch.Base.{
  Bool, true, false, String, ◌==◌, List, [], ◌∷◌, ◌++◌, Option, none, some, if◌then◌else◌,
}
use signalwatch.Base.Int.{ℤ, pos, leb_ℤ}
use signalwatch.Base.Result.{Result, ok, err, error}
use signalwatch.Base.Time.{Time, Duration}
use signalwatch.Eval.Window.{Fields}
use signalwatch.Input.Message.{
  EvaluationRecord, Json, parse_message, or_now, Act, hand, ack, reject,
}
use signalwatch.Input.Kafka.{cons_ok, or_default}
use signalwatch.Input.Pubsub.{or_text}

-- `Queue`.
pub record Queue : Type 0 where
  pub name : String
  pub queue_name : String
  pub consumer : String
  pub prefetch_count : ℤ

-- `Config`, less the logger and the dialer that are injected.
pub record Config : Type 0 where
  pub url : String
  pub queues : List Queue
  pub dial_timeout : Duration

abbrev pub queue_defaults : Queue → Queue
queue_defaults q = record q {
  queue_name = or_text q.name q.queue_name;
  consumer = or_text ("signalwatch-" <> q.name) q.consumer;
  prefetch_count = or_default (pos 32) q.prefetch_count;
}

abbrev pub timeout_default : Duration → Duration
timeout_default d = if leb_ℤ d (pos 0) then pos 30000000000 else d

module _ (trim_space : String → String) where
  -- The loop over the queues.
  unfoldable pub check_queues : List Queue → Result (List Queue)
  check_queues [] = ok []
  check_queues (q ∷ queues) =
      let rest = check_queues queues in
      if trim_space q.name == ""
      then err (error "rabbitmq input: queue name required")
      else cons_ok (queue_defaults q) rest

  abbrev pub finish : Config → Result (List Queue) → Result Config
  finish c (err e) = err e
  finish c (ok queues) =
      ok (record c { queues = queues; dial_timeout = timeout_default c.dial_timeout })

  -- `New`.
  unfoldable pub new : Config → Result Config
  unfolding check_queues
  new c =
      if trim_space c.url == "" then err (error "rabbitmq input: URL required") else elim c.queues [
        | [] ↦ err (error "rabbitmq input: at least one queue required")
        | q ∷ queues ↦ finish c (check_queues (q ∷ queues))
      ]

-- `amqp.Delivery`, as far as it is read, which comes at the time `now`, and which the sink takes
-- unless the context is done first.
pub record Delivery : Type 0 where
  pub tag : String
  pub body : String
  pub timestamp : Time
  pub now : Time
  pub takes : Bool

-- What the select of the loop meets: the context is done, the channel of deliveries is closed, or
-- there is a delivery.
pub data Turn : Type 0 where
  done closed : Turn
  delivery : Delivery → Turn

module _ (unmarshal : String → Result Json) (q : Queue) where
  abbrev pub record_of : Delivery → Fields → EvaluationRecord
  record_of d fs = record { input_ref = q.name; at = or_now d.now d.timestamp; fields = some fs }

  abbrev pub respond : Delivery → Option Fields → List Act
  respond d none = reject d.tag ∷ []
  respond d (some fs) = if d.takes then hand d.tag (record_of d fs) ∷ ack d.tag ∷ [] else []

  -- `handleDelivery`.
  unfoldable pub handle_delivery : Delivery → List Act
  handle_delivery d = respond d (parse_message unmarshal d.body)

  -- The loop of `runQueue`: what it does, and whether it still runs.
  unfoldable pub consume : List Turn → List Act × Bool
  unfolding handle_delivery
  consume [] = ([], true)
  consume (done ∷ turns) = ([], false)
  consume (closed ∷ turns) = ([], false)
  consume (delivery d ∷ turns) =
      let (acts, runs) = consume turns in (handle_delivery d ++ acts, runs)

  -- `runQueue`: it ends where the channel does not open, or `Qos` or `Consume` fails.
  unfoldable pub run_queue : Bool → Bool → Bool → List Turn → List Act × Bool
  unfolding consume
  run_queue opens qos consumes turns =
      if opens
      then if qos then if consumes then consume turns else ([], false) else ([], false)
      else ([], false)

-- ===== src/Input/Sqs.antt =====
-- internal/input/stream/sqs/sqs.go.
use signalwatch.Base.{
  Bool, true, false, String, ◌==◌, List, [], ◌∷◌, ◌++◌, Option, none, some, if◌then◌else◌,
}
use signalwatch.Base.Int.{ℤ, pos}
use signalwatch.Base.Result.{Result, ok, err, error}
use signalwatch.Base.Time.{Time}
use signalwatch.Eval.Window.{Fields}
use signalwatch.Input.Message.{EvaluationRecord, Json, parse_message, Act, hand, delete}
use signalwatch.Input.Kafka.{cons_ok, or_default}

-- `Queue`.
pub record Queue : Type 0 where
  pub name : String
  pub url : String
  pub wait_time_seconds : ℤ
  pub max_number_of_messages : ℤ

-- `Config`, less the logger; `has_client` is whether the client is set.
pub record Config : Type 0 where
  pub has_client : Bool
  pub queues : List Queue

abbrev pub queue_defaults : Queue → Queue
queue_defaults q = record q {
  wait_time_seconds = or_default (pos 20) q.wait_time_seconds;
  max_number_of_messages = or_default (pos 10) q.max_number_of_messages;
}

module _ (trim_space : String → String) where
  -- The loop over the queues.
  unfoldable pub check_queues : List Queue → Result (List Queue)
  check_queues [] = ok []
  check_queues (q ∷ queues) =
      let rest = check_queues queues in
      if trim_space q.name == ""
      then err (error "sqs input: queue name required")
      else if trim_space q.url == ""
      then err (error "sqs input: queue requires URL")
      else cons_ok (queue_defaults q) rest

  abbrev pub finish : Config → Result (List Queue) → Result Config
  finish c (err e) = err e
  finish c (ok queues) = ok (record c { queues = queues })

  -- `New`.
  unfoldable pub new : Config → Result Config
  unfolding check_queues
  new c =
      if c.has_client
      then elim c.queues [
        | [] ↦ err (error "sqs input: at least one queue required")
        | q ∷ queues ↦ finish c (check_queues (q ∷ queues))
      ]
      else err (error "sqs input: client required")

-- `types.Message`, as far as it is read, with its receipt handle, which comes at the time `now`,
-- and which the sink takes unless the context is done first.
pub record Message : Type 0 where
  pub receipt : String
  pub body : Option String
  pub now : Time
  pub takes : Bool

-- What one turn of the loop meets: the context is done, `ReceiveMessage` returns the error of a
-- context that is done, or another error (with whether the wait of a second ends before the
-- context), or it returns messages.
pub data Turn : Type 0 where
  done cancelled : Turn
  transient : Bool → Turn
  batch : List Message → Turn

abbrev pub or_empty : Option String → String
or_empty none = ""
or_empty (some s) = s

-- One part of the work and then the next, where the first does not end it.
abbrev pub and_then : List Act × Bool → List Act × Bool → List Act × Bool
and_then (acts, true) (more, still) = (acts ++ more, still)
and_then (acts, false) rest = (acts, false)

module _ (unmarshal : String → Result Json) (q : Queue) where
  abbrev pub record_of : Message → Fields → EvaluationRecord
  record_of m fs = record { input_ref = q.name; at = m.now; fields = some fs }

  abbrev pub respond : Message → Option Fields → List Act × Bool
  respond m none = ([], true)
  respond m (some fs) =
      if m.takes
      then (hand m.receipt (record_of m fs) ∷ delete m.receipt ∷ [], true)
      else ([], false)

  -- `handleMessage`: what it does, and whether the loop goes on. An error of `DeleteMessage` only
  -- goes to the log.
  unfoldable pub handle_message : Message → List Act × Bool
  handle_message m = respond m (parse_message unmarshal (or_empty m.body))

  -- The loop over a batch: it stops at a message that the context cut off.
  unfoldable pub handle_batch : List Message → List Act × Bool
  unfolding handle_message
  handle_batch [] = ([], true)
  handle_batch (m ∷ ms) = and_then (handle_message m) (handle_batch ms)

  -- `runQueue`: what it does, and whether it still runs.
  unfoldable pub run_queue : List Turn → List Act × Bool
  unfolding handle_batch
  run_queue [] = ([], true)
  run_queue (done ∷ turns) = ([], false)
  run_queue (cancelled ∷ turns) = ([], false)
  run_queue (transient waits ∷ turns) =
      let rest = run_queue turns in if waits then rest else ([], false)
  run_queue (batch ms ∷ turns) = and_then (handle_batch ms) (run_queue turns)

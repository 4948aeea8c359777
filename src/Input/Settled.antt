-- ===== src/Input/Settled.antt =====
-- When the stream inputs settle a message with its broker.
use signalwatch.Base.{
  Bool, true, false, String, ◌≡◌, refl, List, [], ◌∷◌, ◌++◌, Option, none, some, if◌then◌else◌,
}
use signalwatch.Base.Lists.{All}
use signalwatch.Base.Result.{Result}
use signalwatch.Eval.Window.{Fields}
use signalwatch.Input.Message.{Json, Act, hand, ack, nack, reject, delete, parse_message}
use signalwatch.Input.Pubsub
use signalwatch.Input.Rabbitmq
use signalwatch.Input.Rabbitmq.{Turn}
use signalwatch.Input.Sqs

-- Every message that is handed over is acknowledged or deleted in the very next act, and no other
-- message is. The first argument is the message that was just handed over.
abbrev pub Paired : Option String → List Act → Type 0
Paired none [] = Unit
Paired none (hand tag r ∷ acts) = Paired (some tag) acts
Paired none (ack tag ∷ acts) = ⊥
Paired none (delete tag ∷ acts) = ⊥
Paired none (nack tag ∷ acts) = Paired none acts
Paired none (reject tag ∷ acts) = Paired none acts
Paired (some last) [] = ⊥
Paired (some last) (hand tag r ∷ acts) = ⊥
Paired (some last) (ack tag ∷ acts) = (last ≡ tag) × Paired none acts
Paired (some last) (delete tag ∷ acts) = (last ≡ tag) × Paired none acts
Paired (some last) (nack tag ∷ acts) = ⊥
Paired (some last) (reject tag ∷ acts) = ⊥

Paired-append :
    (o : Option String) (xs ys : List Act) → Paired o xs → Paired none ys → Paired o (xs ++ ys)
Paired-append none [] ys h k = k
Paired-append none (hand tag r ∷ xs) ys h k = Paired-append (some tag) xs ys h k
Paired-append none (ack tag ∷ xs) ys h k = absurd h
Paired-append none (delete tag ∷ xs) ys h k = absurd h
Paired-append none (nack tag ∷ xs) ys h k = Paired-append none xs ys h k
Paired-append none (reject tag ∷ xs) ys h k = Paired-append none xs ys h k
Paired-append (some last) [] ys h k = absurd h
Paired-append (some last) (hand tag r ∷ xs) ys h k = absurd h
Paired-append (some last) (ack tag ∷ xs) ys h k = (h.0, Paired-append none xs ys h.1 k)
Paired-append (some last) (delete tag ∷ xs) ys h k = (h.0, Paired-append none xs ys h.1 k)
Paired-append (some last) (nack tag ∷ xs) ys h k = absurd h
Paired-append (some last) (reject tag ∷ xs) ys h k = absurd h

-- Handlers that run one after the other.
abbrev pub in_turn : List (List Act) → List Act
in_turn [] = []
in_turn (acts ∷ runs) = acts ++ in_turn runs

module _ (unmarshal : String → Result Json) where
  module _ (s : Pubsub.Subscription) where
    pubsub_message :
        (d : Pubsub.Delivery) (o : Option Fields) → Paired none (Pubsub.respond unmarshal s d o)
    pubsub_message d none = tt
    pubsub_message d (some fs) =
        elim d.takes
          as (λ b. Paired none (
            if b
            then hand d.message.tag (Pubsub.record_of unmarshal s d fs) ∷ ack d.message.tag ∷ []
            else nack d.message.tag ∷ [])) [ true ↦ (refl, tt) | false ↦ tt ]

    pubsub-Paired :
        (ds : List Pubsub.Delivery) → All (Paired none) (Pubsub.run_subscription unmarshal s ds)
    unfolding Pubsub.run_subscription Pubsub.handle_message
    pubsub-Paired [] = tt
    pubsub-Paired (d ∷ ds) =
        (pubsub_message d (parse_message unmarshal d.message.body), pubsub-Paired ds)

  module _ (q : Rabbitmq.Queue) where
    rabbit_delivery :
        (d : Rabbitmq.Delivery) (o : Option Fields) → Paired none (Rabbitmq.respond unmarshal q d o)
    rabbit_delivery d none = tt
    rabbit_delivery d (some fs) =
        elim d.takes
          as (λ b.
            Paired none (
              if b
              then hand d.tag (Rabbitmq.record_of unmarshal q d fs) ∷ ack d.tag ∷ []
              else [])) [ true ↦ (refl, tt) | false ↦ tt ]

    consume-Paired : (turns : List Turn) → Paired none (Rabbitmq.consume unmarshal q turns).0
    unfolding Rabbitmq.consume Rabbitmq.handle_delivery
    consume-Paired [] = tt
    consume-Paired (Turn.done ∷ turns) = tt
    consume-Paired (Turn.closed ∷ turns) = tt
    consume-Paired (Turn.delivery d ∷ turns) =
        Paired-append none (Rabbitmq.handle_delivery unmarshal q d)
          (Rabbitmq.consume unmarshal q turns).0
          (rabbit_delivery d (parse_message unmarshal d.body)) (consume-Paired turns)

    rabbit-Paired :
        (opens qos consumes : Bool) (turns : List Turn)
        → Paired none (Rabbitmq.run_queue unmarshal q opens qos consumes turns).0
    unfolding Rabbitmq.run_queue
    rabbit-Paired true true true turns = consume-Paired turns
    rabbit-Paired true true false turns = tt
    rabbit-Paired true false consumes turns = tt
    rabbit-Paired false qos consumes turns = tt

  and_then-Paired :
      (p r : List Act × Bool) → Paired none p.0 → Paired none r.0 → Paired none (Sqs.and_then p r).0
  and_then-Paired (acts, true) (more, still) h k = Paired-append none acts more h k
  and_then-Paired (acts, false) r h k = h

  module _ (q : Sqs.Queue) where
    sqs_message :
        (m : Sqs.Message) (o : Option Fields) → Paired none (Sqs.respond unmarshal q m o).0
    sqs_message m none = tt
    sqs_message m (some fs) =
        elim m.takes
          as (λ b.
            let p : List Act × Bool =
              if b
              then (hand m.receipt (Sqs.record_of unmarshal q m fs) ∷ delete m.receipt ∷ [], true)
              else ([], false) in
            Paired none p.0) [ true ↦ (refl, tt) | false ↦ tt ]

    sqs_batch : (ms : List Sqs.Message) → Paired none (Sqs.handle_batch unmarshal q ms).0
    unfolding Sqs.handle_batch Sqs.handle_message
    sqs_batch [] = tt
    sqs_batch (m ∷ ms) =
        and_then-Paired (Sqs.handle_message unmarshal q m) (Sqs.handle_batch unmarshal q ms)
          (sqs_message m (parse_message unmarshal (Sqs.or_empty m.body))) (sqs_batch ms)

    sqs-Paired : (turns : List Sqs.Turn) → Paired none (Sqs.run_queue unmarshal q turns).0
    unfolding Sqs.run_queue
    sqs-Paired [] = tt
    sqs-Paired (Sqs.Turn.done ∷ turns) = tt
    sqs-Paired (Sqs.Turn.cancelled ∷ turns) = tt
    sqs-Paired (Sqs.Turn.transient true ∷ turns) = sqs-Paired turns
    sqs-Paired (Sqs.Turn.transient false ∷ turns) = tt
    sqs-Paired (Sqs.Turn.batch ms ∷ turns) =
        and_then-Paired (Sqs.handle_batch unmarshal q ms) (Sqs.run_queue unmarshal q turns)
          (sqs_batch ms) (sqs-Paired turns)

  in_turn-Paired : (runs : List (List Act)) → All (Paired none) runs → Paired none (in_turn runs)
  in_turn-Paired [] h = tt
  in_turn-Paired (acts ∷ runs) h =
      Paired-append none acts (in_turn runs) h.0 (in_turn-Paired runs h.1)

  -- The stream inputs settle exactly what they deliver. In every run over Pub/Sub, RabbitMQ and
  -- SQS, with bad messages, cancelled contexts and broker errors anywhere, a message is
  -- acknowledged or deleted if and only if its record was handed to the engine, in the act just
  -- before. For Pub/Sub this holds within each of its handlers, and so in all where they run in turn.
  pub settled_exactly :
      (s : Pubsub.Subscription) (ds : List Pubsub.Delivery) (r : Rabbitmq.Queue)
      (opens qos consumes : Bool) (ts : List Turn) (q : Sqs.Queue) (turns : List Sqs.Turn)
      → All (Paired none) (Pubsub.run_subscription unmarshal s ds)
        × Paired none (in_turn (Pubsub.run_subscription unmarshal s ds))
        × Paired none (Rabbitmq.run_queue unmarshal r opens qos consumes ts).0
        × Paired none (Sqs.run_queue unmarshal q turns).0
  settled_exactly s ds r opens qos consumes ts q turns = (
    pubsub-Paired s ds,
    in_turn-Paired _ (pubsub-Paired s ds),
    rabbit-Paired r opens qos consumes ts,
    sqs-Paired q turns,
  )

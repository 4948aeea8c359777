-- ===== src/Input/Delivery.antt =====
-- What the stream inputs hand to the engine while nothing stops them.
use signalwatch.Base.{
  ◌==◌, if◌then◌else◌, Bool, true, false, String, ◌≡◌, refl, ap, ap₂, ◌∙◌, List, [], ◌∷◌, ◌++◌,
  Option, none, some,
}
use signalwatch.Base.Lists.{All}
use signalwatch.Base.Result.{ok, err, Result}
use signalwatch.Base.Time.{Time, is_zero}
use signalwatch.Eval.Window.{Fields}
use signalwatch.Input.Message.{
  EvaluationRecord, Json, Act, hand, ack, nack, reject, delete, handed, fields_of, parse_message,
}
use signalwatch.Input.Kafka
use signalwatch.Input.Pubsub
use signalwatch.Input.Rabbitmq
use signalwatch.Input.Sqs

-- The record of a message with fields, in front of others.
abbrev pub cons_some : Option EvaluationRecord → List EvaluationRecord → List EvaluationRecord
cons_some none rs = rs
cons_some (some r) rs = r ∷ rs

abbrev pub with_fields : (Fields → EvaluationRecord) → Option Fields → Option EvaluationRecord
with_fields f none = none
with_fields f (some fs) = some (f fs)

-- The fields of a body: those of the JSON object in it, if it is not empty and holds one.
abbrev pub object_in : Result Json → Option Fields
object_in (err e) = none
object_in (ok Json.no_object) = none
object_in (ok (Json.object fs)) = some fs

abbrev pub fields_in : (String → Result Json) → String → Option Fields
fields_in unmarshal body = if body == "" then none else object_in (unmarshal body)

parse_message-fields_in :
    (unmarshal : String → Result Json) (body : String)
    → parse_message unmarshal body ≡ fields_in unmarshal body
unfolding parse_message
parse_message-fields_in unmarshal body =
    ap (λ o. if body == "" then none else o) (object_of (unmarshal body))
  where
    object_of : (r : Result Json) → fields_of r ≡ object_in r
    object_of (err e) = refl
    object_of (ok Json.no_object) = refl
    object_of (ok (Json.object fs)) = refl

-- The record of a message: the name of its source, its time or else the present, and its fields.
abbrev pub record_in : String → Time → Time → Fields → EvaluationRecord
record_in name now t fs = record {
  input_ref = name;
  at = if is_zero t then now else t;
  fields = some fs;
}

parsed :
    (unmarshal : String → Result Json) (body : String) (f : Fields → EvaluationRecord)
    (rs : List EvaluationRecord)
    → cons_some (with_fields f (parse_message unmarshal body)) rs
      ≡ cons_some (with_fields f (fields_in unmarshal body)) rs
parsed unmarshal body f rs =
    ap (λ o. cons_some (with_fields f o) rs) (parse_message-fields_in unmarshal body)

handed-append : (xs ys : List Act) → handed (xs ++ ys) ≡ handed xs ++ handed ys
unfolding handed
handed-append [] ys = refl
handed-append (hand tag r ∷ xs) ys = ap (λ l. r ∷ l) (handed-append xs ys)
handed-append (ack tag ∷ xs) ys = handed-append xs ys
handed-append (nack tag ∷ xs) ys = handed-append xs ys
handed-append (reject tag ∷ xs) ys = handed-append xs ys
handed-append (delete tag ∷ xs) ys = handed-append xs ys

module _ (unmarshal : String → Result Json) where
  module _ (t : Kafka.Topic) where
    -- The reader neither ends nor does the sink refuse.
    abbrev pub KafkaFlows : List Kafka.Turn → Type 0
    KafkaFlows [] = Unit
    KafkaFlows (Kafka.Turn.ended ∷ turns) = ⊥
    KafkaFlows (Kafka.Turn.transient ∷ turns) = KafkaFlows turns
    KafkaFlows (Kafka.Turn.message m now takes ∷ turns) = (takes ≡ true) × KafkaFlows turns

    -- The records of the messages that parse, in order.
    unfoldable pub kafka_records : List Kafka.Turn → List EvaluationRecord
    kafka_records [] = []
    kafka_records (Kafka.Turn.ended ∷ turns) = kafka_records turns
    kafka_records (Kafka.Turn.transient ∷ turns) = kafka_records turns
    kafka_records (Kafka.Turn.message m now takes ∷ turns) =
        cons_some (with_fields (record_in t.name now m.time) (fields_in unmarshal m.value))
          (kafka_records turns)

    kafka_respond :
        (m : Kafka.Message) (now : Time) (takes : Bool) (o : Option Fields) (rest : List Act × Bool)
        (records : List EvaluationRecord)
        → takes ≡ true
        → (handed rest.0 ≡ records) × (rest.1 ≡ true)
        → (handed (Kafka.respond unmarshal t m now takes o rest).0
            ≡ cons_some (with_fields (Kafka.record_of unmarshal t m now) o) records)
          × ((Kafka.respond unmarshal t m now takes o rest).1 ≡ true)
    unfolding handed
    kafka_respond m now takes none rest records yields h = h
    kafka_respond m now takes (some fs) rest records yields h =
        simp (yields) (ap (λ l. Kafka.record_of unmarshal t m now fs ∷ l) h.0, h.1)

    kafka_delivers :
        (turns : List Kafka.Turn)
        → KafkaFlows turns
        → (handed (Kafka.run_topic unmarshal t turns).0 ≡ kafka_records turns)
          × ((Kafka.run_topic unmarshal t turns).1 ≡ true)
    unfolding Kafka.run_topic kafka_records handed
    kafka_delivers [] flows = (refl, refl)
    kafka_delivers (Kafka.Turn.ended ∷ turns) flows = absurd flows
    kafka_delivers (Kafka.Turn.transient ∷ turns) flows = kafka_delivers turns flows
    kafka_delivers (Kafka.Turn.message m now takes ∷ turns) flows =
        let (all, runs) =
          kafka_respond m now takes (parse_message unmarshal m.value)
            (Kafka.run_topic unmarshal t turns) (kafka_records turns) flows.0
            (kafka_delivers turns flows.1) in
        (
          all ∙ parsed unmarshal m.value (Kafka.record_of unmarshal t m now) (kafka_records turns),
          runs,
        )

  module _ (s : Pubsub.Subscription) where
    -- The record of a message that parses.
    unfoldable pub pubsub_record : Pubsub.Delivery → List EvaluationRecord
    pubsub_record d =
        cons_some
          (with_fields (record_in s.name d.now d.message.publish_time)
            (fields_in unmarshal d.message.body))
          []

    pubsub_respond :
        (d : Pubsub.Delivery) (o : Option Fields)
        → d.takes ≡ true
        → handed (Pubsub.respond unmarshal s d o)
          ≡ cons_some (with_fields (Pubsub.record_of unmarshal s d) o) []
    unfolding handed
    pubsub_respond d none yields = refl
    pubsub_respond d (some fs) yields = simp (yields) refl

    pubsub_delivers :
        (d : Pubsub.Delivery)
        → d.takes ≡ true
        → handed (Pubsub.handle_message unmarshal s d) ≡ pubsub_record d
    unfolding Pubsub.handle_message pubsub_record
    pubsub_delivers d yields =
        pubsub_respond d (parse_message unmarshal d.message.body) yields
        ∙ parsed unmarshal d.message.body (Pubsub.record_of unmarshal s d) []

  module _ (q : Rabbitmq.Queue) where
    abbrev pub RabbitFlows : List Rabbitmq.Turn → Type 0
    RabbitFlows [] = Unit
    RabbitFlows (Rabbitmq.Turn.done ∷ turns) = ⊥
    RabbitFlows (Rabbitmq.Turn.closed ∷ turns) = ⊥
    RabbitFlows (Rabbitmq.Turn.delivery d ∷ turns) = (d.takes ≡ true) × RabbitFlows turns

    unfoldable pub rabbit_records : List Rabbitmq.Turn → List EvaluationRecord
    rabbit_records [] = []
    rabbit_records (Rabbitmq.Turn.done ∷ turns) = rabbit_records turns
    rabbit_records (Rabbitmq.Turn.closed ∷ turns) = rabbit_records turns
    rabbit_records (Rabbitmq.Turn.delivery d ∷ turns) =
        cons_some (with_fields (record_in q.name d.now d.timestamp) (fields_in unmarshal d.body))
          (rabbit_records turns)

    rabbit_respond :
        (d : Rabbitmq.Delivery) (o : Option Fields) (acts : List Act)
        → d.takes ≡ true
        → handed (Rabbitmq.respond unmarshal q d o ++ acts)
          ≡ cons_some (with_fields (Rabbitmq.record_of unmarshal q d) o) (handed acts)
    unfolding handed
    rabbit_respond d none acts yields = refl
    rabbit_respond d (some fs) acts yields = simp (yields) refl

    rabbit_delivers :
        (turns : List Rabbitmq.Turn)
        → RabbitFlows turns
        → (handed (Rabbitmq.run_queue unmarshal q true true true turns).0 ≡ rabbit_records turns)
          × ((Rabbitmq.run_queue unmarshal q true true true turns).1 ≡ true)
    unfolding Rabbitmq.run_queue Rabbitmq.consume Rabbitmq.handle_delivery rabbit_records handed
    rabbit_delivers [] flows = (refl, refl)
    rabbit_delivers (Rabbitmq.Turn.done ∷ turns) flows = absurd flows
    rabbit_delivers (Rabbitmq.Turn.closed ∷ turns) flows = absurd flows
    rabbit_delivers (Rabbitmq.Turn.delivery d ∷ turns) flows =
        let o = parse_message unmarshal d.body in
        let rest = rabbit_delivers turns flows.1 in
        (
          rabbit_respond d o (Rabbitmq.run_queue unmarshal q true true true turns).0 flows.0
              ∙ ap (cons_some (with_fields (Rabbitmq.record_of unmarshal q d) o)) rest.0
              ∙ parsed unmarshal d.body (Rabbitmq.record_of unmarshal q d) (rabbit_records turns),
          rest.1,
        )

  module _ (q : Sqs.Queue) where
    abbrev pub SqsFlows : List Sqs.Turn → Type 0
    SqsFlows [] = Unit
    SqsFlows (Sqs.Turn.done ∷ turns) = ⊥
    SqsFlows (Sqs.Turn.cancelled ∷ turns) = ⊥
    SqsFlows (Sqs.Turn.transient waits ∷ turns) = (waits ≡ true) × SqsFlows turns
    SqsFlows (Sqs.Turn.batch ms ∷ turns) = All (λ m. m.takes ≡ true) ms × SqsFlows turns

    -- No body counts as an empty one.
    abbrev pub text_of : Option String → String
    text_of none = ""
    text_of (some s) = s

    parsed_text :
        (body : Option String) (f : Fields → EvaluationRecord) (rs : List EvaluationRecord)
        → cons_some (with_fields f (parse_message unmarshal (Sqs.or_empty body))) rs
          ≡ cons_some (with_fields f (fields_in unmarshal (text_of body))) rs
    parsed_text none f rs = parsed unmarshal "" f rs
    parsed_text (some body) f rs = parsed unmarshal body f rs

    unfoldable pub batch_records : List Sqs.Message → List EvaluationRecord
    batch_records [] = []
    batch_records (m ∷ ms) =
        cons_some
          (with_fields (λ fs. record { input_ref = q.name; at = m.now; fields = some fs })
            (fields_in unmarshal (text_of m.body)))
          (batch_records ms)

    unfoldable pub sqs_records : List Sqs.Turn → List EvaluationRecord
    unfolding batch_records
    sqs_records [] = []
    sqs_records (Sqs.Turn.done ∷ turns) = sqs_records turns
    sqs_records (Sqs.Turn.cancelled ∷ turns) = sqs_records turns
    sqs_records (Sqs.Turn.transient waits ∷ turns) = sqs_records turns
    sqs_records (Sqs.Turn.batch ms ∷ turns) = batch_records ms ++ sqs_records turns

    sqs_respond :
        (m : Sqs.Message) (o : Option Fields) (rest : List Act × Bool)
        (records : List EvaluationRecord)
        → m.takes ≡ true
        → (handed rest.0 ≡ records) × (rest.1 ≡ true)
        → (handed (Sqs.and_then (Sqs.respond unmarshal q m o) rest).0
            ≡ cons_some (with_fields (Sqs.record_of unmarshal q m) o) records)
          × ((Sqs.and_then (Sqs.respond unmarshal q m o) rest).1 ≡ true)
    unfolding handed
    sqs_respond m none rest records yields h = h
    sqs_respond m (some fs) rest records yields h =
        simp (yields) (ap (λ l. Sqs.record_of unmarshal q m fs ∷ l) h.0, h.1)

    batch_delivers :
        (ms : List Sqs.Message)
        → All (λ m. m.takes ≡ true) ms
        → (handed (Sqs.handle_batch unmarshal q ms).0 ≡ batch_records ms)
          × ((Sqs.handle_batch unmarshal q ms).1 ≡ true)
    unfolding Sqs.handle_batch Sqs.handle_message batch_records handed
    batch_delivers [] flows = (refl, refl)
    batch_delivers (m ∷ ms) flows =
        let (all, runs) =
          sqs_respond m (parse_message unmarshal (Sqs.or_empty m.body))
            (Sqs.handle_batch unmarshal q ms) (batch_records ms) flows.0
            (batch_delivers ms flows.1) in
        (all ∙ parsed_text m.body (Sqs.record_of unmarshal q m) (batch_records ms), runs)

    joined :
        (p rest : List Act × Bool) (a b : List EvaluationRecord)
        → (handed p.0 ≡ a) × (p.1 ≡ true)
        → (handed rest.0 ≡ b) × (rest.1 ≡ true)
        → (handed (Sqs.and_then p rest).0 ≡ a ++ b) × ((Sqs.and_then p rest).1 ≡ true)
    joined (acts, true) (more, still) a b h k =
        (handed-append acts more ∙ ap₂ (λ x y. x ++ y) h.0 k.0, k.1)
    joined (acts, false) rest a b h k = absurd (cc)

    sqs_delivers :
        (turns : List Sqs.Turn)
        → SqsFlows turns
        → (handed (Sqs.run_queue unmarshal q turns).0 ≡ sqs_records turns)
          × ((Sqs.run_queue unmarshal q turns).1 ≡ true)
    unfolding Sqs.run_queue sqs_records handed
    sqs_delivers [] flows = (refl, refl)
    sqs_delivers (Sqs.Turn.done ∷ turns) flows = absurd flows
    sqs_delivers (Sqs.Turn.cancelled ∷ turns) flows = absurd flows
    sqs_delivers (Sqs.Turn.transient true ∷ turns) flows = sqs_delivers turns flows.1
    sqs_delivers (Sqs.Turn.transient false ∷ turns) flows = absurd (cc)
    sqs_delivers (Sqs.Turn.batch ms ∷ turns) flows =
        joined (Sqs.handle_batch unmarshal q ms) (Sqs.run_queue unmarshal q turns)
          (batch_records ms) (sqs_records turns) (batch_delivers ms flows.0)
          (sqs_delivers turns flows.1)

  -- No message that parses is lost while nothing stops an input. Where the engine's sink takes what
  -- it is handed and the context is not done, Kafka, RabbitMQ and SQS hand over exactly the records of
  -- the messages whose bodies are JSON objects, under the name of the topic or queue, at the time of
  -- the message or else the present, in the order in which they came, past every bad message and every
  -- transient error of the broker, and are still reading at the end. The handler of Pub/Sub, which
  -- the client calls for each message, hands over the record of its message in the same way.
  pub streams_deliver :
      (t : Kafka.Topic) (ks : List Kafka.Turn) (s : Pubsub.Subscription) (d : Pubsub.Delivery)
      (r : Rabbitmq.Queue) (rs : List Rabbitmq.Turn) (q : Sqs.Queue) (qs : List Sqs.Turn)
      → KafkaFlows t ks
      → d.takes ≡ true
      → RabbitFlows r rs
      → SqsFlows q qs
      → let (kafka, kafka_runs) = Kafka.run_topic unmarshal t ks in
        let (rabbit, rabbit_runs) = Rabbitmq.run_queue unmarshal r true true true rs in
        let (sqs, sqs_runs) = Sqs.run_queue unmarshal q qs in
        (handed kafka ≡ kafka_records t ks)
        × (kafka_runs ≡ true)
        × (handed (Pubsub.handle_message unmarshal s d) ≡ pubsub_record s d)
        × (handed rabbit ≡ rabbit_records r rs)
        × (rabbit_runs ≡ true)
        × (handed sqs ≡ sqs_records q qs)
        × (sqs_runs ≡ true)
  streams_deliver t ks s d r rs q qs fk fp fr fs =
      let (a, b) = kafka_delivers t ks fk in
      let (c, e) = rabbit_delivers r rs fr in
      let (f, g) = sqs_delivers q qs fs in (a, b, pubsub_delivers s d fp, c, e, f, g)

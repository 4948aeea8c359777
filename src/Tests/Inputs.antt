-- ===== src/Tests/Inputs.antt =====
-- Messages at the inputs, and scripts at the migration.
use signalwatch.Base.{
  Bool, true, false, String, ◌==◌, ◌≡◌, refl, List, [], ◌∷◌, Option, none, some, if◌then◌else◌,
}
use signalwatch.Base.Int.{pos}
use signalwatch.Base.Lists.{All, any}
use signalwatch.Base.Result.{Result, ok, err, error}
use signalwatch.Input.Message.{Json, object, handed}
use signalwatch.Input.Kafka
use signalwatch.Input.Pubsub
use signalwatch.Input.Rabbitmq
use signalwatch.Input.Sqs
use signalwatch.Input.Settled.{Paired, in_turn, settled_exactly}
use signalwatch.Input.Delivery.{
  kafka_records, pubsub_record, rabbit_records, sqs_records, streams_deliver,
}
use signalwatch.Input.Event.{EventInput, Payload, post_event}
use signalwatch.Input.Event.Arrival.{Outcome, post_event_arrives}
use signalwatch.Store.Migrate.{Schema, Entry, names_of, migrate}
use signalwatch.Store.Migrate.Once.{Grows, migrations_apply_once}

-- "{}" is an object, and no other text.
abbrev unmarshal : String → Result Json
unmarshal s = if s == "{}" then ok (object []) else err (error "invalid character")

abbrev topic : Kafka.Topic
topic = record { name = "orders"; group_id = "g"; min_bytes = pos 0; max_bytes = pos 0 }

-- An error of the broker, a bad message, and a good one.
abbrev reads : List Kafka.Turn
reads =
    Kafka.Turn.transient
    ∷ Kafka.Turn.message (record { tag = "k1"; value = "oops"; time = pos 1 }) (pos 2) true
    ∷ Kafka.Turn.message (record { tag = "k2"; value = "{}"; time = pos 3 }) (pos 4) true
    ∷ []

abbrev subscription : Pubsub.Subscription
subscription = record { name = "orders"; subscription_id = "s" }

abbrev received : Pubsub.Delivery
received = record {
  message = record { tag = "p1"; body = "{}"; publish_time = pos 1 };
  now = pos 2;
  takes = true;
}

abbrev receives : List Pubsub.Delivery
receives = received ∷ []

abbrev rabbit_queue : Rabbitmq.Queue
rabbit_queue = record { name = "orders"; queue_name = "q"; consumer = "c"; prefetch_count = pos 1 }

abbrev deliveries : List Rabbitmq.Turn
deliveries =
    Rabbitmq.Turn.delivery
      (record { tag = "r1"; body = "{}"; timestamp = pos 1; now = pos 2; takes = true })
    ∷ []

abbrev sqs_queue : Sqs.Queue
sqs_queue = record {
  name = "orders";
  url = "https://sqs";
  wait_time_seconds = pos 20;
  max_number_of_messages = pos 10;
}

abbrev polls : List Sqs.Turn
polls =
    Sqs.Turn.transient true
    ∷ Sqs.Turn.batch (record { receipt = "q1"; body = some "{}"; now = pos 1; takes = true } ∷ [])
    ∷ []

settled_exactly_example :
    All (Paired none) (Pubsub.run_subscription unmarshal subscription receives)
    × Paired none (in_turn (Pubsub.run_subscription unmarshal subscription receives))
    × Paired none (Rabbitmq.run_queue unmarshal rabbit_queue true true true deliveries).0
    × Paired none (Sqs.run_queue unmarshal sqs_queue polls).0
settled_exactly_example =
    settled_exactly unmarshal subscription receives rabbit_queue true true true deliveries sqs_queue
      polls

streams_deliver_example :
    let (kafka, kafka_runs) = Kafka.run_topic unmarshal topic reads in
    let (rabbit, rabbit_runs) =
      Rabbitmq.run_queue unmarshal rabbit_queue true true true deliveries in
    let (sqs, sqs_runs) = Sqs.run_queue unmarshal sqs_queue polls in
    (handed kafka ≡ kafka_records unmarshal topic reads)
    × (kafka_runs ≡ true)
    × (handed (Pubsub.handle_message unmarshal subscription received)
        ≡ pubsub_record unmarshal subscription received)
    × (handed rabbit ≡ rabbit_records unmarshal rabbit_queue deliveries)
    × (rabbit_runs ≡ true)
    × (handed sqs ≡ sqs_records unmarshal sqs_queue polls)
    × (sqs_runs ≡ true)
streams_deliver_example =
    streams_deliver unmarshal topic reads subscription received rabbit_queue deliveries sqs_queue
      polls (refl, (refl, tt)) refl (refl, tt) (refl, ((refl, tt), tt))

abbrev listening : Option EventInput
listening = some (record { name = "events"; sink = some [] })

abbrev posted : Result Payload
posted = ok (record { input_ref = ""; fields = some [] })

post_event_arrives_example :
    Outcome
      (record { now = pos 1; takes = true })
      posted
      listening
      (post_event (record { now = pos 1; takes = true }) posted listening)
post_event_arrives_example =
    post_event_arrives (record { now = pos 1; takes = true }) posted listening

abbrev scripts : List Entry
scripts =
    record { name = "0002_b.sql"; is_dir = false }
    ∷ record { name = "0001_a.sql"; is_dir = false }
    ∷ []

abbrev read_file : String → Result String
read_file name = ok name

abbrev is_script : String → String → Bool
is_script name suffix = true

abbrev old_schema : Schema
old_schema = record {
  has_table = true;
  versions = "0001_a.sql" ∷ [];
  ran = "0001_a.sql" ∷ [];
  faults = [];
}

migrations_apply_once_example :
    let (r, s') = migrate read_file is_script (ok scripts) old_schema in
    Grows read_file old_schema.versions old_schema.ran s'.versions s'.ran
    × (r ≡ ok tt
        → All (λ n. any (λ v. v == n) s'.versions ≡ true) (names_of is_script scripts)
          × (s'.faults ≡ []
              → migrate read_file is_script (ok scripts) s'
                ≡ (ok tt, record s' { has_table = true })))
migrations_apply_once_example = migrations_apply_once read_file is_script scripts old_schema

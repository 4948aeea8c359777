-- ===== src/Input/Configs/KafkaConfig.antt =====
-- What `New` of internal/input/stream/kafka/kafka.go accepts.

use signalwatch.Base.{false, String, ◌==◌, ◌≡◌, refl, List, [], ◌∷◌, Option, Bool-cases, inl, inr}
use signalwatch.Base.Int.{ℤ, pos}
use signalwatch.Base.Result.{Result, ok, err, Result-cases}
use signalwatch.Input.Kafka
use signalwatch.Input.Kafka.{cons_ok, or_default}
use signalwatch.Input.Configs.{Settles, NonEmpty, cons_ok-NonEmpty, or_default_twice, timeout_twice}

module _ (trim_space : String → String) where
  kafka_topic :
      (t : Kafka.Topic) (r : Result (List Kafka.Topic))
      → (trim_space t.name == "") ≡ false
      → (trim_space t.group_id == "") ≡ false
      → Settles (Kafka.check_topics trim_space) r
      → Settles (Kafka.check_topics trim_space) (cons_ok (Kafka.topic_defaults t) r)
  unfolding Kafka.check_topics
  kafka_topic t (err e) named grouped h = tt
  kafka_topic t (ok rest) named grouped h =
      simp
        (
          named,
          grouped,
          h,
          or_default_twice (pos 1) t.min_bytes refl,
          or_default_twice (pos 10485760) t.max_bytes refl,
        )
        refl

  kafka_topics :
      (ts : List Kafka.Topic)
      → Settles (Kafka.check_topics trim_space) (Kafka.check_topics trim_space ts)
  unfolding Kafka.check_topics
  kafka_topics [] = refl
  kafka_topics (t ∷ ts) = elim (Bool-cases (trim_space t.name == "")) [
    | inl unnamed ↦ simp (unnamed) tt
    | inr named ↦ elim (Bool-cases (trim_space t.group_id == "")) [
      | inl alone ↦ simp (named, alone) tt
      | inr grouped ↦
          simp (named, grouped)
            (kafka_topic t (Kafka.check_topics trim_space ts) named grouped (kafka_topics ts))
    ]
  ]

  kafka_nonempty :
      (t : Kafka.Topic) (ts : List Kafka.Topic) → NonEmpty (Kafka.check_topics trim_space (t ∷ ts))
  unfolding Kafka.check_topics
  kafka_nonempty t ts = elim (Bool-cases (trim_space t.name == "")) [
    | inl unnamed ↦ simp (unnamed) tt
    | inr named ↦ elim (Bool-cases (trim_space t.group_id == "")) [
      | inl alone ↦ simp (named, alone) tt
      | inr grouped ↦
          simp (named, grouped)
            (cons_ok-NonEmpty (Kafka.topic_defaults t) (Kafka.check_topics trim_space ts))
    ]
  ]

  kafka_finish :
      (b : String) (bs : List String) (ts : List Kafka.Topic) (sasl : Option Kafka.Sasl) (d : ℤ)
      (r : Result (List Kafka.Topic))
      → NonEmpty r
      → Settles (Kafka.check_topics trim_space) r
      → Settles (Kafka.new trim_space) (
          Kafka.finish trim_space
            (record { brokers = b ∷ bs; topics = ts; sasl = sasl; dial_timeout = d })
            r
            (Kafka.check_sasl trim_space sasl))
  unfolding Kafka.new
  kafka_finish b bs ts sasl d (err e) full h = tt
  kafka_finish b bs ts sasl d (ok []) full h = absurd full
  kafka_finish b bs ts sasl d (ok (t ∷ rest)) full h =
      elim (Result-cases (Kafka.check_sasl trim_space sasl)) [
        | inl (u, good) ↦ simp (good, h, timeout_twice (pos 10000000000) d refl) refl
        | inr (e, bad) ↦ simp (bad) tt
      ]

  kafka_set :
      (b : String) (bs : List String) (t : Kafka.Topic) (ts : List Kafka.Topic) (c : Kafka.Config)
      → Settles
          (Kafka.new trim_space)
          (Kafka.new trim_space (record c { brokers = b ∷ bs; topics = t ∷ ts }))
  kafka_set b bs t ts c =
      unfold Kafka.new in
      kafka_finish b bs (t ∷ ts) c.sasl c.dial_timeout (Kafka.check_topics trim_space (t ∷ ts))
        (kafka_nonempty t ts) (kafka_topics (t ∷ ts))

  pub kafka-Settles : (c : Kafka.Config) → Settles (Kafka.new trim_space) (Kafka.new trim_space c)
  kafka-Settles c = go c.brokers c.topics
    where
      go :
          (bs : List String) (ts : List Kafka.Topic)
          → Settles
              (Kafka.new trim_space)
              (Kafka.new trim_space (record c { brokers = bs; topics = ts }))
      go [] ts = unfold Kafka.new in tt
      go (b ∷ bs) [] = unfold Kafka.new in tt
      go (b ∷ bs) (t ∷ ts) = kafka_set b bs t ts c

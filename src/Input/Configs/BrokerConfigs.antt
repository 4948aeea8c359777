-- ===== src/Input/Configs/BrokerConfigs.antt =====
-- What `New` of the other stream inputs accepts, and the four together.
use Prim.Native.String.{◌++◌ as ◌<>◌}
use signalwatch.Base.{
  Bool, true, false, String, ◌==◌, ◌≡◌, refl, List, [], ◌∷◌, Bool-cases, inl, inr,
}
use signalwatch.Base.Int.{ℤ, pos}
use signalwatch.Base.Result.{Result, ok, err}
use signalwatch.Input.Kafka
use signalwatch.Input.Kafka.{cons_ok, or_default}
use signalwatch.Input.Pubsub
use signalwatch.Input.Pubsub.{or_text}
use signalwatch.Input.Rabbitmq
use signalwatch.Input.Sqs
use signalwatch.Input.Configs.{
  Settles, NonEmpty, cons_ok-NonEmpty, or_default_twice, or_text_twice, timeout_twice,
}
use signalwatch.Input.Configs.KafkaConfig.{kafka-Settles}

module _ (trim_space : String → String) where
  pubsub_one :
      (x : Pubsub.Subscription) (r : Result (List Pubsub.Subscription))
      → (trim_space x.name == "") ≡ false
      → Settles (Pubsub.check_subscriptions trim_space) r
      → Settles
          (Pubsub.check_subscriptions trim_space)
          (cons_ok (record x { subscription_id = or_text x.name x.subscription_id }) r)
  unfolding Pubsub.check_subscriptions
  pubsub_one x (err e) with_name h = tt
  pubsub_one x (ok rest) with_name h =
      simp (with_name, h, or_text_twice x.name x.subscription_id) refl

  pubsub_all :
      (xs : List Pubsub.Subscription)
      → Settles (Pubsub.check_subscriptions trim_space) (Pubsub.check_subscriptions trim_space xs)
  unfolding Pubsub.check_subscriptions
  pubsub_all [] = refl
  pubsub_all (x ∷ xs) = elim (Bool-cases (trim_space x.name == "")) [
    | inl without_name ↦ simp (without_name) tt
    | inr with_name ↦
        simp (with_name)
          (pubsub_one x (Pubsub.check_subscriptions trim_space xs) with_name (pubsub_all xs))
  ]

  pubsub_nonempty :
      (x : Pubsub.Subscription) (xs : List Pubsub.Subscription)
      → NonEmpty (Pubsub.check_subscriptions trim_space (x ∷ xs))
  unfolding Pubsub.check_subscriptions
  pubsub_nonempty x xs = elim (Bool-cases (trim_space x.name == "")) [
    | inl without_name ↦ simp (without_name) tt
    | inr with_name ↦ simp (with_name) (
        cons_ok-NonEmpty (record x { subscription_id = or_text x.name x.subscription_id })
          (Pubsub.check_subscriptions trim_space xs))
  ]

  pubsub_finish :
      (p : String) (ss : List Pubsub.Subscription) (r : Result (List Pubsub.Subscription))
      → (trim_space p == "") ≡ false
      → NonEmpty r
      → Settles (Pubsub.check_subscriptions trim_space) r
      → Settles
          (Pubsub.new trim_space)
          (Pubsub.finish trim_space (record { project_id = p; subscriptions = ss }) r)
  unfolding Pubsub.new
  pubsub_finish p ss (err e) set full h = tt
  pubsub_finish p ss (ok []) set full h = absurd full
  pubsub_finish p ss (ok (x ∷ rest)) set full h = simp (set, h) refl

  pubsub-Settles : (c : Pubsub.Config) → Settles (Pubsub.new trim_space) (Pubsub.new trim_space c)
  unfolding Pubsub.new
  pubsub-Settles c = go c.subscriptions
    where
      go :
          (xs : List Pubsub.Subscription)
          → Settles
              (Pubsub.new trim_space)
              (Pubsub.new trim_space (record c { subscriptions = xs }))
      go [] = elim (Bool-cases (trim_space c.project_id == "")) [
        | inl e ↦ simp (e) tt
        | inr e ↦ simp (e) tt
      ]
      go (x ∷ xs) = elim (Bool-cases (trim_space c.project_id == "")) [
        | inl blank ↦ simp (blank) tt
        | inr set ↦ simp (set) (
            pubsub_finish c.project_id (x ∷ xs) (Pubsub.check_subscriptions trim_space (x ∷ xs)) set
              (pubsub_nonempty x xs) (pubsub_all (x ∷ xs)))
      ]

  rabbit_one :
      (x : Rabbitmq.Queue) (r : Result (List Rabbitmq.Queue))
      → (trim_space x.name == "") ≡ false
      → Settles (Rabbitmq.check_queues trim_space) r
      → Settles (Rabbitmq.check_queues trim_space) (cons_ok (Rabbitmq.queue_defaults x) r)
  unfolding Rabbitmq.check_queues
  rabbit_one x (err e) with_name h = tt
  rabbit_one x (ok rest) with_name h =
      simp
        (
          with_name,
          h,
          or_text_twice x.name x.queue_name,
          or_text_twice ("signalwatch-" <> x.name) x.consumer,
          or_default_twice (pos 32) x.prefetch_count refl,
        )
        refl

  rabbit_all :
      (xs : List Rabbitmq.Queue)
      → Settles (Rabbitmq.check_queues trim_space) (Rabbitmq.check_queues trim_space xs)
  unfolding Rabbitmq.check_queues
  rabbit_all [] = refl
  rabbit_all (x ∷ xs) = elim (Bool-cases (trim_space x.name == "")) [
    | inl without_name ↦ simp (without_name) tt
    | inr with_name ↦
        simp (with_name)
          (rabbit_one x (Rabbitmq.check_queues trim_space xs) with_name (rabbit_all xs))
  ]

  rabbit_nonempty :
      (x : Rabbitmq.Queue) (xs : List Rabbitmq.Queue)
      → NonEmpty (Rabbitmq.check_queues trim_space (x ∷ xs))
  unfolding Rabbitmq.check_queues
  rabbit_nonempty x xs = elim (Bool-cases (trim_space x.name == "")) [
    | inl without_name ↦ simp (without_name) tt
    | inr with_name ↦
        simp (with_name)
          (cons_ok-NonEmpty (Rabbitmq.queue_defaults x) (Rabbitmq.check_queues trim_space xs))
  ]

  rabbit_finish :
      (u : String) (qs : List Rabbitmq.Queue) (d : ℤ) (r : Result (List Rabbitmq.Queue))
      → (trim_space u == "") ≡ false
      → NonEmpty r
      → Settles (Rabbitmq.check_queues trim_space) r
      → Settles
          (Rabbitmq.new trim_space)
          (Rabbitmq.finish trim_space (record { url = u; queues = qs; dial_timeout = d }) r)
  unfolding Rabbitmq.new
  rabbit_finish u qs d (err e) set full h = tt
  rabbit_finish u qs d (ok []) set full h = absurd full
  rabbit_finish u qs d (ok (x ∷ rest)) set full h =
      simp (set, h, timeout_twice (pos 30000000000) d refl) refl

  rabbit-Settles :
      (c : Rabbitmq.Config) → Settles (Rabbitmq.new trim_space) (Rabbitmq.new trim_space c)
  unfolding Rabbitmq.new
  rabbit-Settles c = go c.queues
    where
      go :
          (xs : List Rabbitmq.Queue)
          → Settles (Rabbitmq.new trim_space) (Rabbitmq.new trim_space (record c { queues = xs }))
      go [] = elim (Bool-cases (trim_space c.url == "")) [
        | inl e ↦ simp (e) tt
        | inr e ↦ simp (e) tt
      ]
      go (x ∷ xs) = elim (Bool-cases (trim_space c.url == "")) [
        | inl blank ↦ simp (blank) tt
        | inr set ↦ simp (set) (
            rabbit_finish c.url (x ∷ xs) c.dial_timeout (Rabbitmq.check_queues trim_space (x ∷ xs))
              set (rabbit_nonempty x xs) (rabbit_all (x ∷ xs)))
      ]

  sqs_one :
      (x : Sqs.Queue) (r : Result (List Sqs.Queue))
      → (trim_space x.name == "") ≡ false
      → (trim_space x.url == "") ≡ false
      → Settles (Sqs.check_queues trim_space) r
      → Settles (Sqs.check_queues trim_space) (cons_ok (Sqs.queue_defaults x) r)
  unfolding Sqs.check_queues
  sqs_one x (err e) with_name with_url h = tt
  sqs_one x (ok rest) with_name with_url h =
      simp
        (
          with_name,
          with_url,
          h,
          or_default_twice (pos 20) x.wait_time_seconds refl,
          or_default_twice (pos 10) x.max_number_of_messages refl,
        )
        refl

  sqs_all :
      (xs : List Sqs.Queue) → Settles (Sqs.check_queues trim_space) (Sqs.check_queues trim_space xs)
  unfolding Sqs.check_queues
  sqs_all [] = refl
  sqs_all (x ∷ xs) = elim (Bool-cases (trim_space x.name == "")) [
    | inl without_name ↦ simp (without_name) tt
    | inr with_name ↦ elim (Bool-cases (trim_space x.url == "")) [
      | inl without_url ↦ simp (with_name, without_url) tt
      | inr with_url ↦
          simp (with_name, with_url)
            (sqs_one x (Sqs.check_queues trim_space xs) with_name with_url (sqs_all xs))
    ]
  ]

  sqs_nonempty :
      (x : Sqs.Queue) (xs : List Sqs.Queue) → NonEmpty (Sqs.check_queues trim_space (x ∷ xs))
  unfolding Sqs.check_queues
  sqs_nonempty x xs = elim (Bool-cases (trim_space x.name == "")) [
    | inl without_name ↦ simp (without_name) tt
    | inr with_name ↦ elim (Bool-cases (trim_space x.url == "")) [
      | inl without_url ↦ simp (with_name, without_url) tt
      | inr with_url ↦
          simp (with_name, with_url)
            (cons_ok-NonEmpty (Sqs.queue_defaults x) (Sqs.check_queues trim_space xs))
    ]
  ]

  sqs_finish :
      (qs : List Sqs.Queue) (r : Result (List Sqs.Queue))
      → NonEmpty r
      → Settles (Sqs.check_queues trim_space) r
      → Settles
          (Sqs.new trim_space)
          (Sqs.finish trim_space (record { has_client = true; queues = qs }) r)
  unfolding Sqs.new
  sqs_finish qs (err e) full h = tt
  sqs_finish qs (ok []) full h = absurd full
  sqs_finish qs (ok (x ∷ rest)) full h = simp (h) refl

  sqs-Settles : (c : Sqs.Config) → Settles (Sqs.new trim_space) (Sqs.new trim_space c)
  unfolding Sqs.new
  sqs-Settles c = go c.has_client c.queues
    where
      go :
          (b : Bool) (xs : List Sqs.Queue)
          → Settles
              (Sqs.new trim_space)
              (Sqs.new trim_space (record { has_client = b; queues = xs }))
      go false xs = tt
      go true [] = tt
      go true (x ∷ xs) =
          sqs_finish (x ∷ xs) (Sqs.check_queues trim_space (x ∷ xs)) (sqs_nonempty x xs)
            (sqs_all (x ∷ xs))

  -- The constructors of the four stream inputs accept what they return: a configuration that `New`
  -- has checked and completed with its defaults is accepted again, and left as it is.
  pub accepted_configs_settle :
      (k : Kafka.Config) (p : Pubsub.Config) (r : Rabbitmq.Config) (s : Sqs.Config)
      → Settles (Kafka.new trim_space) (Kafka.new trim_space k)
        × Settles (Pubsub.new trim_space) (Pubsub.new trim_space p)
        × Settles (Rabbitmq.new trim_space) (Rabbitmq.new trim_space r)
        × Settles (Sqs.new trim_space) (Sqs.new trim_space s)
  accepted_configs_settle k p r s =
      (kafka-Settles trim_space k, pubsub-Settles p, rabbit-Settles r, sqs-Settles s)

-- ===== src/Api/Handlers/Subscriptions.antt =====
-- The handlers of /v1/subscriptions, and the wire form of a subscription.
pub mod Laws
use signalwatch.Base.{Bool, String, ◌==◌, List, map, if◌then◌else◌}
use signalwatch.Base.Result.{Result, Error}
use signalwatch.Base.Time.{Time, Duration, zero_time}
use signalwatch.Subscriber.{Labels, Subscription, validate}
use signalwatch.Rule.Condition.{Float64}
use signalwatch.Store.Db.{Db}
use signalwatch.Store.Subscriptions
use signalwatch.Api.Reply.{Reply, sent, bare, or_missing, Handling, answer, given, calling}

-- `time.Duration(sec * float64(time.Second))` and `Duration.Seconds`.
pub record Seconds : Type 0 where
  pub to_duration : Float64 → Duration
  pub of_duration : Duration → Float64

-- `subscriptionPayload`.
pub record Payload : Type 0 where
  pub id : String
  pub subscriber_id : String
  pub rule_id : String
  pub label_selector : Labels
  pub dwell_sec : Float64
  pub repeat_interval_sec : Float64
  pub notify_on_resolve : Bool
  pub one_shot : Bool
  pub channel_filter : List String

module _ (sec : Seconds) where
  open sec use {to_duration, of_duration}

  -- `toSubscription`.
  unfoldable pub to_subscription : String → Payload → Subscription
  to_subscription fresh p = record {
    id = if p.id == "" then fresh else p.id;
    subscriber_id = p.subscriber_id;
    rule_id = p.rule_id;
    label_selector = p.label_selector;
    dwell = to_duration p.dwell_sec;
    repeat_interval = to_duration p.repeat_interval_sec;
    notify_on_resolve = p.notify_on_resolve;
    one_shot = p.one_shot;
    channel_filter = p.channel_filter;
    created_at = zero_time;
    updated_at = zero_time;
  }

  -- `subscriptionToPayload`.
  unfoldable pub to_payload : Subscription → Payload
  to_payload s = record {
    id = s.id;
    subscriber_id = s.subscriber_id;
    rule_id = s.rule_id;
    label_selector = s.label_selector;
    dwell_sec = of_duration s.dwell;
    repeat_interval_sec = of_duration s.repeat_interval;
    notify_on_resolve = s.notify_on_resolve;
    one_shot = s.one_shot;
    channel_filter = s.channel_filter;
  }

  -- `listSubscriptions`.
  unfoldable pub list_subscriptions : Handling Db (List Payload)
  list_subscriptions =
      calling 500 Subscriptions.list λ rows. answer (sent 200 (map to_payload rows))

  -- `createSubscription`, after the body is decoded.
  unfoldable pub create_valid : Time → Subscription → Handling Db Payload
  create_valid now s =
      given 400 (validate s)
        λ _. calling 400 (Subscriptions.create now s) λ _. answer (sent 201 (to_payload s))

  -- `createSubscription`.
  unfoldable pub create_subscription : Time → String → Result Payload → Handling Db Payload
  create_subscription now fresh body =
      given 400 body λ p. create_valid now (to_subscription fresh p)

  -- `getSubscription`.
  unfoldable pub get_subscription : String → Handling Db Payload
  get_subscription id =
      calling 500 (Subscriptions.get id)
        λ found. answer (or_missing "subscription not found" to_payload found)

  -- `updateSubscription`, after the body is decoded.
  unfoldable pub update_valid : Time → Subscription → Handling Db Payload
  update_valid now s =
      given 400 (validate s)
        λ _. calling 400 (Subscriptions.update now s) λ _. answer (sent 200 (to_payload s))

  -- `updateSubscription`. The id of the path replaces that of the body; a fresh id is minted where
  -- the path has none.
  unfoldable pub update_subscription : Time → String → String → Result Payload → Handling Db Payload
  update_subscription now fresh id body =
      given 400 body λ p. update_valid now (to_subscription fresh (record p { id = id }))

-- `deleteSubscription`.
unfoldable pub delete_subscription : String → Handling Db (Unit {0})
delete_subscription id = calling 500 (Subscriptions.delete id) λ _. answer (bare 204)

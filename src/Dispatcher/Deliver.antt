-- ===== src/Dispatcher/Deliver.antt =====
-- `deliver` and `channelFilterSet` of internal/dispatcher/dispatcher.go.
pub mod OneShot
pub mod Audit
pub mod Rows
use signalwatch.Base.{
  ℕ, suc, Bool, true, false, not, ◌&&◌, ◌||◌, String, ◌==◌, List, [], ◌∷◌, ◌++◌, Option, none, some,
  if◌then◌else◌,
}
use signalwatch.Base.Lists.{any}
use signalwatch.Base.Result.{Error, Result, ok, err, error, Exec, pure, raise, wrapping, ◌>>=◌}
use signalwatch.Base.Time.{Time}
use signalwatch.Subscriber.{
  ChannelBinding, Subscriber, Subscription, Notification, NotificationKind, kind_name, is_empty,
}
use signalwatch.Rule.Model.{Rule, severity_name}
use signalwatch.Channel.{Payload, Sent}
use signalwatch.Store.Notifications
use signalwatch.Store.Subscribers
use signalwatch.Dispatcher.World.{World, Env, on_db}

-- `channelFilterSet` and the test on it: an empty filter lets every channel through.
unfoldable pub allowed : List String → String → Bool
allowed filter name = is_empty filter || any (λ f. f == name) filter

-- What one delivery is about.
pub record Delivery : Type 0 where
  pub rule : Rule
  pub sub : Subscription
  pub incident_id : String
  pub kind : NotificationKind
  pub value : String
  pub now : Time

unfoldable pub payload : Delivery → ChannelBinding → Payload
payload d b = record {
  incident_id = d.incident_id;
  rule_id = d.rule.id;
  rule_name = d.rule.name;
  severity = severity_name d.rule.severity;
  description = d.rule.description;
  value = d.value;
  kind = kind_name d.kind;
  address = b.address;
  now = d.now;
  triggered_at = d.now;
}

abbrev pub status : Option String → String
status none = "ok"
status (some e) = "error"

abbrev pub failure : Option String → String
failure none = ""
failure (some e) = e

unfoldable pub audit :
    Delivery → Subscriber → ChannelBinding → String → Option String → Notification
audit d row b id outcome = record {
  id = id;
  incident_id = d.incident_id;
  subscription_id = d.sub.id;
  subscriber_id = row.id;
  channel = b.channel;
  address = b.address;
  kind = d.kind;
  sent_at = d.now;
  status = status outcome;
  failure = failure outcome;
}

module _ (env : Env) where
  open env use {configured, send, new_id}

  -- One call of `Send`, its audit row, and the error of `Record` left to the log.
  unfoldable pub send_binding : Delivery → Subscriber → ChannelBinding → World → World
  unfolding audit payload
  send_binding d row b w =
      let id = new_id w.minted in
      let outcome = send b.channel (payload d b) w.outbox in
      let sent : Sent = record { channel = b.channel; payload = payload d b; outcome = outcome } in
      record w {
        db = (Notifications.record_sent (audit d row b id outcome) w.db).1;
        minted = suc w.minted;
        outbox = w.outbox ++ sent ∷ [];
      }

  abbrev pub passes : Delivery → ChannelBinding → Bool
  passes d b = allowed d.sub.channel_filter b.channel && configured b.channel

  -- The loop over the subscriber's channels.
  unfoldable pub send_all : Delivery → Subscriber → List ChannelBinding → World → World
  send_all d row [] w = w
  send_all d row (b ∷ bs) w = send_all d row bs (if passes d b then send_binding d row b w else w)

  abbrev pub send_to : Delivery → Option Subscriber → Exec World (Unit {0})
  send_to d none = raise (error "subscriber not found")
  send_to d (some row) = λ w. (ok tt, send_all d row row.channels w)

  -- The part of `deliver` after the one-shot gate.
  unfoldable pub deliver_now : Delivery → Exec World (Unit {0})
  deliver_now d = do row ← on_db (Subscribers.get d.sub.subscriber_id); send_to d row

  -- `deliver`. A one-shot subscription with a notification row is left alone.
  unfoldable pub deliver : Delivery → Exec World (Unit {0})
  deliver d =
      if d.sub.one_shot
      then (do
        seen ←
            wrapping "dispatcher: one_shot lookup"
              (on_db (Notifications.exists_for_subscription d.sub.id))
        if seen then pure tt else deliver_now d)
      else deliver_now d

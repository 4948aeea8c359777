-- ===== src/Api/Handlers/Subscribers.antt =====
-- The handlers of /v1/subscribers.
use signalwatch.Base.{String, ◌==◌, List, if◌then◌else◌}
use signalwatch.Base.Result.{Result}
use signalwatch.Base.Time.{Time, is_zero}
use signalwatch.Subscriber.{Subscriber}
use signalwatch.Store.Db.{Db}
use signalwatch.Store.Subscribers
use signalwatch.Api.Reply.{sent, bare, or_missing, Handling, answer, given, calling}

-- `listSubscribers`.
unfoldable pub list_subscribers : Handling Db (List Subscriber)
list_subscribers = calling 500 Subscribers.list λ rows. answer (sent 200 rows)

-- The subscriber as `Create` of the store leaves it, which is the one that is sent back.
abbrev pub stamped : Time → Subscriber → Subscriber
stamped now s = record s {
  created_at = if is_zero s.created_at then now else s.created_at;
  updated_at = now;
}

abbrev pub with_id : String → Subscriber → Subscriber
with_id fresh s = record s { id = if s.id == "" then fresh else s.id }

-- `createSubscriber`.
unfoldable pub create_subscriber : Time → String → Result Subscriber → Handling Db Subscriber
create_subscriber now fresh body = given 400 body λ s.
    calling 400 (Subscribers.create now (with_id fresh s))
      λ _. answer (sent 201 (stamped now (with_id fresh s)))

-- `getSubscriber`.
unfoldable pub get_subscriber : String → Handling Db Subscriber
get_subscriber id =
    calling 500 (Subscribers.get id)
      λ found. answer (or_missing "subscriber not found" (λ s. s) found)

-- `updateSubscriber`.
unfoldable pub update_subscriber : Time → String → Result Subscriber → Handling Db Subscriber
update_subscriber now id body = given 400 body λ s.
    calling 400 (Subscribers.update now (record s { id = id }))
      λ _. answer (sent 200 (record s { id = id; updated_at = now }))

-- `deleteSubscriber`.
unfoldable pub delete_subscriber : String → Handling Db (Unit {0})
delete_subscriber id = calling 500 (Subscribers.delete id) λ _. answer (bare 204)

-- ===== src/Dispatcher/Deliver/OneShot.antt =====
-- The one-shot gate of `deliver`.
use signalwatch.Base.{
  Bool, true, String, ◌≡◌, ◌≢◌, refl, Option, none, some, arith, if◌then◌else◌, Bool-cases, inl,
  inr, ap, ◌∙◌,
}
use signalwatch.Base.Lists.{any, find}
use signalwatch.Base.Result.{pure}
use signalwatch.Store.Db.{SubscriberRow, NotificationRow, IsQuiet, query, query-quiet}
use signalwatch.Store.Notifications
use signalwatch.Store.Subscribers
use signalwatch.Dispatcher.World.{World, Env, on_db}
use signalwatch.Dispatcher.Deliver.{Delivery, deliver, deliver_now, send_to}
use signalwatch.Dispatcher.Deliver.Rows.{IsFresh, send_all-seen}

-- A notification row of the subscription is in the table.
abbrev pub IsSeen : String → World → Type 0
IsSeen id w = any (Notifications.for_subscription id) w.db.notifications ≡ true

module _ (env : Env) where
  -- Once a notification row of a one-shot subscription exists, whatever its status, a delivery for
  -- it sends nothing and leaves the audit trail as it is, also where the database fails.
  pub deliver-one_shot_seen :
      (d : Delivery) (w : World)
      → d.sub.one_shot ≡ true
      → IsSeen d.sub.id w
      → ((deliver env d w).1.outbox ≡ w.outbox)
        × ((deliver env d w).1.db.notifications ≡ w.db.notifications)
  unfolding deliver on_db Notifications.exists_for_subscription query
  deliver-one_shot_seen d w one seen = rw one (ground arith)

  -- Where the database does not fail, a delivery turns on the subscriber's row alone.
  deliver_now_quiet :
      (d : Delivery) (w : World)
      → IsQuiet w.db
      → deliver_now env d w
        ≡ send_to env d
            (Subscribers.found (find (Subscribers.has_id d.sub.subscriber_id) w.db.subscribers))
            w
  unfolding deliver_now on_db Subscribers.get
  deliver_now_quiet d w quiet = rw (query-quiet _ w.db quiet)

  deliver_now-IsSeen :
      (d : Delivery) (w : World)
      → IsQuiet w.db
      → IsFresh env w
      → (deliver_now env d w).1.outbox ≢ w.outbox
      → IsSeen d.sub.id (deliver_now env d w).1
  deliver_now-IsSeen d w quiet fresh =
      deliver_to_seen (find (Subscribers.has_id d.sub.subscriber_id) w.db.subscribers)
        (deliver_now_quiet d w quiet)
    where
      deliver_to_seen :
          (row : Option SubscriberRow)
          → deliver_now env d w ≡ send_to env d (Subscribers.found row) w
          → (deliver_now env d w).1.outbox ≢ w.outbox
          → IsSeen d.sub.id (deliver_now env d w).1
      deliver_to_seen none e = rw e (λ sends. absurd (sends refl))
      deliver_to_seen (some row) e = rw e (
          send_all-seen env d (Subscribers.of_row row) (Subscribers.of_row row).channels w quiet
            fresh)

  -- Where the database does not fail, the gate is the test for a row of the subscription.
  pub deliver_quiet :
      (d : Delivery) (w : World)
      → IsQuiet w.db
      → d.sub.one_shot ≡ true
      → deliver env d w
        ≡ (if any (Notifications.for_subscription d.sub.id) w.db.notifications
              then pure tt
              else deliver_now env d)
            w
  unfolding deliver on_db Notifications.exists_for_subscription
  deliver_quiet d w quiet one = rw one (rw (query-quiet _ w.db quiet))

  deliver-IsSeen :
      (d : Delivery) (w : World)
      → IsQuiet w.db
      → IsFresh env w
      → d.sub.one_shot ≡ true
      → (deliver env d w).1.outbox ≢ w.outbox
      → IsSeen d.sub.id (deliver env d w).1
  deliver-IsSeen d w quiet fresh one sends =
      elim (Bool-cases (any (Notifications.for_subscription d.sub.id) w.db.notifications)) [
        | inl seen ↦ absurd (sends (deliver-one_shot_seen d w one seen).0)
        | inr unseen ↦
            let same : deliver env d w ≡ deliver_now env d w =
              deliver_quiet d w quiet one
              ∙ ap (λ b. (if b then pure tt else deliver_now env d) w) unseen in
            rw same (deliver_now-IsSeen d w quiet fresh (rw same at sends))
      ]

  -- A one-shot subscription is notified by one delivery at most. Where a delivery for it sends
  -- anything, with no failure of the database and a fresh id, no later delivery for it sends
  -- anything, as long as the rows of the audit trail are kept; the later delivery may be about
  -- another incident, and the database may fail under it.
  pub one_shot_at_most_once :
      (d e : Delivery) (w w' : World)
      → IsQuiet w.db
      → IsFresh env w
      → d.sub.one_shot ≡ true
      → e.sub ≡ d.sub
      → (deliver env d w).1.outbox ≢ w.outbox
      → ((p : NotificationRow → Bool)
          → any p (deliver env d w).1.db.notifications ≡ true
          → any p w'.db.notifications ≡ true)
      → (deliver env e w').1.outbox ≡ w'.outbox
  one_shot_at_most_once d e w w' quiet fresh one same sends kept =
      (deliver-one_shot_seen e w' (ap (λ s. s.one_shot) same ∙ one)
        (rw same (kept _ (deliver-IsSeen d w quiet fresh one sends)))).0

-- ===== src/Api/Handlers/Subscriptions/Laws.antt =====
-- What a reply of the subscription handlers says of the store.
use signalwatch.Base.{ℕ, Bool, false, not, ◌&&◌, String, eq_refl, ◌≡◌, refl, arith, [], ◌∷◌, ◌++◌}
use signalwatch.Base.Lists.{any, find-append_hit}
use signalwatch.Base.Result.{ok}
use signalwatch.Base.Time.{Time}
use signalwatch.Subscriber.{Subscription, validate}
use signalwatch.Store.Db.{Db, IsQuiet, query-quiet, exec_checked-ok, text_of-nullable}
use signalwatch.Store.Subscribers
use signalwatch.Store.Subscriptions
use signalwatch.Api.Reply.{sent, calling_cases, given_cases, Sends, of_Sends}
use signalwatch.Api.Handlers.Subscriptions.{
  Seconds, Payload, to_subscription, to_payload, create_valid, create_subscription,
  get_subscription,
}

module _ (sec : Seconds) where
  -- The row of a subscription shows the same payload as the subscription.
  row_payload :
      (now : Time) (s : Subscription)
      → to_payload sec (Subscriptions.of_row (Subscriptions.created_row now s)) ≡ to_payload sec s
  unfolding to_payload Subscriptions.of_row Subscriptions.created_row
  row_payload now s = simp (text_of-nullable s.rule_id) refl

  -- What `Create` inserts is what `Get` finds.
  create-get :
      (now : Time) (s : Subscription) (db : Db)
      → IsQuiet db
      → (Subscriptions.create now s db).0 ≡ ok tt
      → let db' = (Subscriptions.create now s db).1 in
        get_subscription sec s.id db' ≡ (sent 200 (to_payload sec s), db')
  unfolding Subscriptions.create get_subscription Subscriptions.get
  create-get now s db quiet made =
      let accepts : Db → Bool = λ db.
        not (any (Subscriptions.has_id s.id) db.subscriptions)
        && any (Subscribers.has_id s.subscriber_id) db.subscribers in
      let put : Db → Db = λ db. record db {
        subscriptions = db.subscriptions ++ Subscriptions.created_row now s ∷ [];
      } in
      let run = exec_checked-ok accepts put db quiet made in
      let new : any (Subscriptions.has_id s.id) db.subscriptions ≡ false = ground (arith, run.0) in
      let hit =
        find-append_hit (Subscriptions.has_id s.id) (Subscriptions.created_row now s)
          db.subscriptions new (eq_refl s.id) in
      let read : get_subscription sec s.id (put db) ≡ (sent 200 (to_payload sec s), put db) =
        simp (query-quiet _ (put db) quiet, hit, row_payload now s) refl in
      simp (run.1) read

  -- After a creation, the subscription is read back by its id.
  abbrev ReadsBack : Payload → Db → Type 0
  ReadsBack body db = get_subscription sec body.id db ≡ (sent 200 body, db)

  create_valid-ReadsBack :
      (now : Time) (s : Subscription) (db : Db)
      → IsQuiet db
      → Sends ReadsBack (create_valid sec now s db)
  unfolding create_valid to_payload
  create_valid-ReadsBack now s db quiet =
      given_cases (Sends ReadsBack) 400 (validate s) _ db
        (λ _ _.
          calling_cases (Sends ReadsBack) 400 (Subscriptions.create now s) _ db
            (λ u made. create-get now s db quiet made) (λ _ _. tt))
        (λ _. tt)

-- A subscription that was created is read back as it was answered: if the creation answers with a
-- body, then reading the id of that body answers 200 with the same body, and changes nothing. The
-- database does not fail.
pub created_reads_back :
    (sec : Seconds) (now : Time) (fresh : String) (p : Payload) (code : ℕ) (body : Payload)
    (db : Db)
    → IsQuiet db
    → let (reply, db') = create_subscription sec now fresh (ok p) db in
      reply ≡ sent code body → get_subscription sec body.id db' ≡ (sent 200 body, db')
unfolding create_subscription
created_reads_back sec now fresh p code body db quiet h =
    of_Sends (ReadsBack sec) _ code body
      (create_valid-ReadsBack sec now (to_subscription sec fresh p) db quiet) h

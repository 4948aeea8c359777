-- ===== src/Dispatcher/Deliver/Rows.antt =====
-- What the loop of `deliver` does to the table of notifications.
use signalwatch.Base.{
  Bool, true, false, ◌==◌, eq_refl, ◌≡◌, ◌≢◌, refl, List, [], ◌∷◌, ◌++◌, arith, ap, if◌then◌else◌,
  Bool-cases, inl, inr,
}
use signalwatch.Base.Lists.{any, any-append}
use signalwatch.Subscriber.{ChannelBinding, Subscriber}
use signalwatch.Store.Db.{NotificationRow, IsQuiet, exec_checked, exec_checked-quiet}
use signalwatch.Store.Notifications
use signalwatch.Dispatcher.World.{World, Env}
use signalwatch.Dispatcher.Deliver.{Delivery, send_all, send_binding, audit, payload, passes}

-- No notification row has the next id to be minted.
abbrev pub IsFresh : Env → World → Type 0
IsFresh env w = any (λ r. r.id == env.new_id w.minted) w.db.notifications ≡ false

module _ (env : Env) (d : Delivery) (row : Subscriber) where
  -- The row of one send.
  abbrev pub sent_row : ChannelBinding → World → NotificationRow
  sent_row b w =
      Notifications.to_row
        (audit d row b (env.new_id w.minted) (env.send b.channel (payload d b) w.outbox))

  pub send_all-pass :
      (b : ChannelBinding) (bs : List ChannelBinding) (w : World)
      → passes env d b ≡ true
      → send_all env d row (b ∷ bs) w ≡ send_all env d row bs (send_binding env d row b w)
  unfolding send_all
  send_all-pass b bs w h =
      ap (λ c. send_all env d row bs (if c then send_binding env d row b w else w)) h

  pub send_all-skip :
      (b : ChannelBinding) (bs : List ChannelBinding) (w : World)
      → passes env d b ≡ false
      → send_all env d row (b ∷ bs) w ≡ send_all env d row bs w
  unfolding send_all
  send_all-skip b bs w h =
      ap (λ c. send_all env d row bs (if c then send_binding env d row b w else w)) h

  -- Where the insert succeeds the row is appended.
  pub send_binding-notifications :
      (b : ChannelBinding) (w : World)
      → IsQuiet w.db
      → IsFresh env w
      → (send_binding env d row b w).db
        ≡ record (w.db) { notifications = w.db.notifications ++ sent_row b w ∷ [] }
  unfolding send_binding Notifications.record_sent
  send_binding-notifications b w quiet fresh =
      rw (exec_checked-quiet _ _ w.db quiet) (unfold audit in rw fresh)

  -- No row is lost, whether the insert succeeds or not.
  pub send_binding-keeps :
      (p : NotificationRow → Bool) (b : ChannelBinding) (w : World)
      → any p w.db.notifications ≡ true
      → any p (send_binding env d row b w).db.notifications ≡ true
  unfolding send_binding Notifications.record_sent exec_checked
  send_binding-keeps p b w h = ground (arith, any-append p w.db.notifications (sent_row b w ∷ []))

  pub send_all-keeps :
      (p : NotificationRow → Bool) (bs : List ChannelBinding) (w : World)
      → any p w.db.notifications ≡ true
      → any p (send_all env d row bs w).db.notifications ≡ true
  send_all-keeps p [] w h = unfold send_all in h
  send_all-keeps p (b ∷ bs) w h = elim (Bool-cases (passes env d b)) [
    | inl e ↦
        rw (send_all-pass b bs w e)
          (send_all-keeps p bs (send_binding env d row b w) (send_binding-keeps p b w h))
    | inr e ↦ rw (send_all-skip b bs w e) (send_all-keeps p bs w h)
  ]

  send_binding-seen :
      (b : ChannelBinding) (w : World)
      → IsQuiet w.db
      → IsFresh env w
      → any (Notifications.for_subscription d.sub.id) (send_binding env d row b w).db.notifications
        ≡ true
  unfolding audit Notifications.to_row any
  send_binding-seen b w quiet fresh = rw (send_binding-notifications b w quiet fresh) (
      rw
        (any-append (Notifications.for_subscription d.sub.id) w.db.notifications
          (sent_row b w ∷ []))
        (ground (arith, eq_refl d.sub.id)))

  -- A loop that sends anything leaves a row of the subscription.
  pub send_all-seen :
      (bs : List ChannelBinding) (w : World)
      → IsQuiet w.db
      → IsFresh env w
      → (send_all env d row bs w).outbox ≢ w.outbox
      → any (Notifications.for_subscription d.sub.id) (send_all env d row bs w).db.notifications
        ≡ true
  send_all-seen [] w quiet fresh sends = absurd (sends (unfold send_all in refl))
  send_all-seen (b ∷ bs) w quiet fresh sends = elim (Bool-cases (passes env d b)) [
    | inl e ↦
        rw (send_all-pass b bs w e)
          (send_all-keeps _ bs (send_binding env d row b w) (send_binding-seen b w quiet fresh))
    | inr e ↦
        rw (send_all-skip b bs w e)
          (send_all-seen bs w quiet fresh (rw (send_all-skip b bs w e) at sends))
  ]

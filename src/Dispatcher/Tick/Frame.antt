-- ===== src/Dispatcher/Tick/Frame.antt =====
-- What the notifications of a `Tick` leave alone: the incidents and the live states.
use signalwatch.Base.{
  ◌≡◌, refl, ◌∙◌, List, [], ◌∷◌, Option, none, some, inl, inr, Bool-cases, arith,
}
use signalwatch.Base.Keeps.{Keeps, keeps_rules, Keeps-bind}
use signalwatch.Base.Result.{Exec}
use signalwatch.Base.Time.{Time}
use signalwatch.Subscriber.{
  Notification, ChannelBinding, Subscriber, Subscription, IncidentSubState,
}
use signalwatch.Rule.Model.{Rule}
use signalwatch.Rule.State.{LiveState, Transition}
use signalwatch.Store.Db.{Db, IncidentRow, LiveStateRow, query, exec, exec_checked, fault}
use signalwatch.Store.Notifications
use signalwatch.Store.Subscribers
use signalwatch.Store.SubStates
use signalwatch.Dispatcher.World.{World, Env, on_db}
use signalwatch.Dispatcher.Deliver.{
  Delivery, deliver, deliver_now, send_to, send_all, send_binding, passes,
}
use signalwatch.Dispatcher.Subscription.{
  Occasion, evaluate, firing_path, resolution_path, notify_firing, notify_resolved,
}
use signalwatch.Dispatcher.Tick.{notify_all}

pub record HasTables (incidents : List IncidentRow) (lives : List LiveStateRow) (w : World)
    : Type 0 where
  pub incidents_same : w.db.incidents ≡ incidents
  pub lives_same : w.db.live_states ≡ lives

-- A statement that leaves both tables alone, whether it fails or not.
pub record Leaves {A : Type 0} (m : Exec Db A) : Type 0 where
  pub incidents_kept : (db : Db) → (m db).1.incidents ≡ db.incidents
  pub lives_kept : (db : Db) → (m db).1.live_states ≡ db.live_states

pub Leaves-query : {A : Type 0} (f : Db → A) → Leaves (query f)
unfolding query
Leaves-query f = record { incidents_kept = λ db. ground arith; lives_kept = λ db. ground arith }

pub Leaves-exec :
    (f : Db → Db)
    → ((db : Db) → (f db).incidents ≡ db.incidents)
    → ((db : Db) → (f db).live_states ≡ db.live_states)
    → Leaves (exec f)
unfolding exec
Leaves-exec f i l = record {
  incidents_kept =
      λ db. elim (Bool-cases (fault db.faults)) [ inl h ↦ simp h refl | inr h ↦ simp h (i _) ];
  lives_kept =
      λ db. elim (Bool-cases (fault db.faults)) [ inl h ↦ simp h refl | inr h ↦ simp h (l _) ];
}

Leaves-record_sent : (n : Notification) → Leaves (Notifications.record_sent n)
unfolding Notifications.record_sent exec_checked
Leaves-record_sent n = record {
  incidents_kept = λ db. ground arith;
  lives_kept = λ db. ground arith;
}

module _ (env : Env) (incidents : List IncidentRow) (lives : List LiveStateRow) where
  on_db-HasTables :
      {A : Type 0} (m : Exec Db A) → Leaves m → Keeps (HasTables incidents lives) (on_db m)
  unfolding on_db
  on_db-HasTables m l = record {
    after = λ w h. record {
      incidents_same = l.incidents_kept w.db ∙ h.incidents_same;
      lives_same = l.lives_kept w.db ∙ h.lives_same;
    };
  }

  send_binding-HasTables :
      (d : Delivery) (row : Subscriber) (b : ChannelBinding) (w : World)
      → HasTables incidents lives w
      → HasTables incidents lives (send_binding env d row b w)
  unfolding send_binding
  send_binding-HasTables d row b w h = record {
    incidents_same = (Leaves-record_sent _).incidents_kept w.db ∙ h.incidents_same;
    lives_same = (Leaves-record_sent _).lives_kept w.db ∙ h.lives_same;
  }

  send_all-HasTables :
      (d : Delivery) (row : Subscriber) (bs : List ChannelBinding) (w : World)
      → HasTables incidents lives w
      → HasTables incidents lives (send_all env d row bs w)
  unfolding send_all
  send_all-HasTables d row [] w h = h
  send_all-HasTables d row (b ∷ bs) w h = elim (Bool-cases (passes env d b)) [
    | inl e ↦ simp e (
        send_all-HasTables d row bs (send_binding env d row b w)
          (send_binding-HasTables d row b w h))
    | inr e ↦ simp e (send_all-HasTables d row bs w h)
  ]

  send_to-HasTables :
      (d : Delivery) (row : Option Subscriber)
      → Keeps (HasTables incidents lives) (send_to env d row)
  send_to-HasTables d none = record { after = λ w h. h }
  send_to-HasTables d (some row) = record {
    after = λ w h. send_all-HasTables d row row.channels w h;
  }

  deliver_now-HasTables : (d : Delivery) → Keeps (HasTables incidents lives) (deliver_now env d)
  unfolding deliver_now Subscribers.get
  deliver_now-HasTables d =
      Keeps-bind _ _ (on_db-HasTables _ (Leaves-query _)) (λ row. send_to-HasTables d row)

  deliver-HasTables : (d : Delivery) → Keeps (HasTables incidents lives) (deliver env d)
  unfolding deliver Notifications.exists_for_subscription
  deliver-HasTables d =
      search (keeps_rules, on_db-HasTables, Leaves-query, deliver_now-HasTables) depth 8

  upsert-HasTables :
      (s : IncidentSubState) → Keeps (HasTables incidents lives) (on_db (SubStates.upsert s))
  unfolding SubStates.upsert
  upsert-HasTables s = on_db-HasTables _ (Leaves-exec _ (λ db. refl) (λ db. refl))

  notify_resolved-HasTables :
      (o : Occasion) (state : Option IncidentSubState)
      → Keeps (HasTables incidents lives) (notify_resolved env o state)
  unfolding notify_resolved
  notify_resolved-HasTables o none = search keeps_rules
  notify_resolved-HasTables o (some state) =
      search (keeps_rules, deliver-HasTables, upsert-HasTables)

  notify_firing-HasTables :
      (o : Occasion) (state : IncidentSubState)
      → Keeps (HasTables incidents lives) (notify_firing env o state)
  unfolding notify_firing
  notify_firing-HasTables o state =
      search (keeps_rules, deliver-HasTables, upsert-HasTables) depth 7

  evaluate-HasTables : (o : Occasion) → Keeps (HasTables incidents lives) (evaluate env o)
  unfolding evaluate resolution_path firing_path SubStates.get
  evaluate-HasTables o =
      search
        (
          keeps_rules, on_db-HasTables, Leaves-query, notify_resolved-HasTables,
          notify_firing-HasTables,
        )
        depth 8

  -- The notifications of a `Tick` change no incident and no live state.
  pub notify_all-HasTables :
      (r : Rule) (ls : LiveState) (t : Transition) (now : Time) (subs : List Subscription)
      (w : World)
      → HasTables incidents lives w
      → HasTables incidents lives (notify_all env r ls t now subs w)
  unfolding notify_all
  notify_all-HasTables r ls t now [] w h = h
  notify_all-HasTables r ls t now (s ∷ ss) w h =
      let o : Occasion = record { rule = r; live = ls; sub = s; transition = t; now = now } in
      notify_all-HasTables r ls t now ss (evaluate env o w).1 ((evaluate-HasTables o).after w h)

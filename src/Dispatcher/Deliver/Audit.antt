-- ===== src/Dispatcher/Deliver/Audit.antt =====
-- The audit trail: the table of notifications tells every call of `Send`, in order.
use signalwatch.Base.{
  ℕ, suc, ◌≤◌, false, String, ◌==◌, eq_iff, ◌≡◌, refl, sym, ◌∙◌, List, [], ◌∷◌, ◌++◌, map, Option,
  none, some, arith, ap, Bool-cases, inl, inr,
}
use mathlib.Core.List.{map-append}
use signalwatch.Base.Lists.{any, any-append}
use signalwatch.Base.Keeps.{Keeps, Keeps-bind, keeps_rules}
use signalwatch.Base.Result.{Result, ok, err, Exec, pure, continue, ◌>>=◌}
use signalwatch.Subscriber.{ChannelBinding, Subscriber, kind_name}
use signalwatch.Channel.{Sent}
use signalwatch.Store.Db.{Db, NotificationRow, IsQuiet, query, query-quiet, exec, exec-quiet}
use signalwatch.Store.Notifications
use signalwatch.Store.Subscribers
use signalwatch.Dispatcher.World.{World, Env, on_db}
use signalwatch.Dispatcher.Deliver.{
  Delivery, deliver, deliver_now, send_to, send_all, send_binding, audit, payload, passes, status,
  failure,
}
use signalwatch.Dispatcher.Deliver.Rows.{
  send_all-pass, send_all-skip, send_binding-notifications, sent_row,
}

-- What a row and a send have in common: the incident, the channel, the address, the kind, and the
-- outcome as status and error.
abbrev pub Entry : Type 0
Entry = String × String × String × String × String × String

abbrev pub row_entry : NotificationRow → Entry
row_entry r = (r.incident_id, r.channel, r.address, kind_name r.kind, r.status, r.failure)

abbrev pub sent_entry : Sent → Entry
sent_entry s = (
  s.payload.incident_id,
  s.channel,
  s.payload.address,
  s.payload.kind,
  status s.outcome,
  failure s.outcome,
)

-- The database does not fail, the ids to be minted are in no notification row, and the rows are the
-- sends, one for one and in order.
pub record IsAudited (env : Env) (w : World) : Type 0 where
  pub quiet : IsQuiet w.db
  pub unused : (n : ℕ) → w.minted ≤ n → any (λ r. r.id == env.new_id n) w.db.notifications ≡ false
  pub told : map row_entry w.db.notifications ≡ map sent_entry w.outbox

-- A statement that leaves the notifications alone, and the driver quiet.
pub record LeavesTrail {A : Type 0} (m : Exec Db A) : Type 0 where
  pub quiet : (db : Db) → IsQuiet db → IsQuiet (m db).1
  pub same : (db : Db) → IsQuiet db → (m db).1.notifications ≡ db.notifications

pub LeavesTrail-query : {A : Type 0} (f : Db → A) → LeavesTrail (query f)
LeavesTrail-query f = record {
  quiet = λ db h. rw (query-quiet f db h) h;
  same = λ db h. rw (query-quiet f db h);
}

pub LeavesTrail-exec :
    (f : Db → Db)
    → ((db : Db) → (f db).faults ≡ db.faults)
    → ((db : Db) → (f db).notifications ≡ db.notifications)
    → LeavesTrail (exec f)
LeavesTrail-exec f faults same = record {
  quiet = λ db h. rw (exec-quiet f db h) (faults db ∙ h);
  same = λ db h. rw (exec-quiet f db h) (same db);
}

pub LeavesTrail-pure : {A : Type 0} (a : A) → LeavesTrail (pure a)
LeavesTrail-pure a = record { quiet = λ db h. h; same = λ db h. refl }

pub LeavesTrail-bind :
    {A B : Type 0} (m : Exec Db A) (f : A → Exec Db B)
    → LeavesTrail m
    → ((a : A) → LeavesTrail (f a))
    → LeavesTrail (m >>= f)
LeavesTrail-bind {A} {B} m f lm lf = record {
  quiet = λ db h. quiet_next (m db).0 (m db).1 (lm.quiet db h);
  same = λ db h. same_next (m db).0 (m db).1 (lm.quiet db h) ∙ lm.same db h;
}
  where
    quiet_next : (r : Result A) (db : Db) → IsQuiet db → IsQuiet (continue r f db).1
    quiet_next (ok a) db h = (lf a).quiet db h
    quiet_next (err e) db h = h

    same_next :
        (r : Result A) (db : Db) → IsQuiet db → (continue r f db).1.notifications ≡ db.notifications
    same_next (ok a) db h = (lf a).same db h
    same_next (err e) db h = refl

module _ (env : Env) (injective : (m n : ℕ) → env.new_id m ≡ env.new_id n → m ≡ n) where
  module _ (d : Delivery) (row : Subscriber) where
    id_apart :
        (b : ChannelBinding) (w : World) (n : ℕ)
        → suc w.minted ≤ n
        → ((sent_row env d row b w).id == env.new_id n) ≡ false
    unfolding audit Notifications.to_row
    id_apart b w n h =
        ground (arith, injective w.minted n, eq_iff (env.new_id w.minted) (env.new_id n))

    sent_unused :
        (b : ChannelBinding) (w : World) (n : ℕ)
        → IsAudited env w
        → suc w.minted ≤ n
        → any (λ r. r.id == env.new_id n) (w.db.notifications ++ sent_row env d row b w ∷ [])
          ≡ false
    unfolding any
    sent_unused b w n h le =
        rw (any-append (λ r. r.id == env.new_id n) w.db.notifications (sent_row env d row b w ∷ []))
          (rw (h.unused n (omega arith)) (rw (id_apart b w n le)))

    sent_told :
        (b : ChannelBinding) (w : World)
        → IsAudited env w
        → map row_entry (w.db.notifications ++ sent_row env d row b w ∷ [])
          ≡ map sent_entry (send_binding env d row b w).outbox
    unfolding send_binding audit payload Notifications.to_row
    sent_told b w h =
        map-append row_entry w.db.notifications (sent_row env d row b w ∷ [])
        ∙ ap (λ es. es ++ row_entry (sent_row env d row b w) ∷ []) h.told
        ∙ sym (map-append sent_entry w.outbox _)

    send_binding-IsAudited :
        (b : ChannelBinding) (w : World)
        → IsAudited env w
        → IsAudited env (send_binding env d row b w)
    send_binding-IsAudited b w h =
        let inserted =
          send_binding-notifications env d row b w h.quiet (h.unused w.minted (omega arith)) in
        record {
          quiet = rw inserted h.quiet;
          unused = λ n le. rw inserted (sent_unused b w n h (unfold send_binding in le));
          told = rw inserted (sent_told b w h);
        }

    pub send_all-IsAudited :
        (bs : List ChannelBinding) (w : World)
        → IsAudited env w
        → IsAudited env (send_all env d row bs w)
    send_all-IsAudited [] w h = unfold send_all in h
    send_all-IsAudited (b ∷ bs) w h = elim (Bool-cases (passes env d b)) [
      | inl e ↦
          rw (send_all-pass env d row b bs w e)
            (send_all-IsAudited bs (send_binding env d row b w) (send_binding-IsAudited b w h))
      | inr e ↦ rw (send_all-skip env d row b bs w e) (send_all-IsAudited bs w h)
    ]

  pub on_db-IsAudited :
      {A : Type 0} (m : Exec Db A) → LeavesTrail m → Keeps (IsAudited env) (on_db m)
  unfolding on_db
  on_db-IsAudited m l = record {
    after = λ w h. record {
      quiet = l.quiet w.db h.quiet;
      unused = λ n le. rw (l.same w.db h.quiet) (h.unused n le);
      told = rw (l.same w.db h.quiet) h.told;
    };
  }

  send_to-IsAudited :
      (d : Delivery) (row : Option Subscriber) → Keeps (IsAudited env) (send_to env d row)
  send_to-IsAudited d none = record { after = λ w h. h }
  send_to-IsAudited d (some row) = record {
    after = λ w h. send_all-IsAudited d row row.channels w h;
  }

  deliver_now-IsAudited : (d : Delivery) → Keeps (IsAudited env) (deliver_now env d)
  unfolding deliver_now Subscribers.get
  deliver_now-IsAudited d =
      Keeps-bind _ _ (on_db-IsAudited _ (LeavesTrail-query _)) (λ row. send_to-IsAudited d row)

  -- A delivery keeps the audit trail exact.
  pub deliver-IsAudited : (d : Delivery) → Keeps (IsAudited env) (deliver env d)
  unfolding deliver Notifications.exists_for_subscription
  deliver-IsAudited d =
      search (keeps_rules, on_db-IsAudited, LeavesTrail-query, deliver_now-IsAudited) depth 8

-- ===== src/Retention/OneShot.antt =====
-- The purge of resolved incidents and the one-shot gate of the dispatcher.
use signalwatch.Base.{
  ℕ, Bool, true, false, not, String, ◌≡◌, refl, ◌∙◌, ap, List, [], ◌∷◌, arith, if◌then◌else◌,
}
use signalwatch.Base.Int.{ℤ}
use signalwatch.Base.Lists.{any, select}
use signalwatch.Base.Result.{ok, pure}
use signalwatch.Store.Db.{Db, NotificationRow, IsQuiet}
use signalwatch.Store.Notifications
use signalwatch.Store.Incidents.{delete_resolved_before}
use signalwatch.Store.Incidents.Purge.{is_doomed, IsPurged}
use signalwatch.Store.Incidents.Atomic.{IsRead, delete_resolved_before_atomic}
use signalwatch.Dispatcher.World.{World, Env}
use signalwatch.Dispatcher.Deliver.{Delivery, deliver, deliver_now}
use signalwatch.Dispatcher.Deliver.OneShot.{deliver_quiet}

-- Every notification row of the subscription is about an incident resolved before the cutoff.
abbrev pub IsForgotten : ℤ → Db → String → Type 0
IsForgotten before db sub =
    select (λ n. not (is_doomed before db n.incident_id))
      (select (Notifications.for_subscription sub) db.notifications)
    ≡ []

unseen_after :
    (sub : String) (keep : NotificationRow → Bool) (rows : List NotificationRow)
    → select keep (select (Notifications.for_subscription sub) rows) ≡ []
    → any (Notifications.for_subscription sub) (select keep rows) ≡ false
unfolding any select
unseen_after sub keep [] h = refl
unseen_after sub keep (r ∷ rows) h = ground (arith, unseen_after sub keep rows)

purged_unseen :
    (before : ℤ) (db db' : Db) (sub : String)
    → IsForgotten before db sub
    → IsPurged before db db'
    → any (Notifications.for_subscription sub) db'.notifications ≡ false
purged_unseen before db db' sub gone p =
    ap (any (Notifications.for_subscription sub)) p.notifications
    ∙ unseen_after sub (λ n. not (is_doomed before db n.incident_id)) db.notifications gone

-- The purge opens the one-shot gate again. Where all notifications of a one-shot subscription are
-- about incidents that the purge removes, its next delivery goes out as if none had been made: the
-- gate does not stop it. The purge reads the ids of all resolved incidents and succeeds, and the
-- database is quiet after it.
pub purge_reopens_one_shot :
    (env : Env) (before : ℤ) (db : Db) (n : ℕ) (d : Delivery) (w : World)
    → d.sub.one_shot ≡ true
    → IsForgotten before db d.sub.id
    → IsRead before db
    → (delete_resolved_before before db).0 ≡ ok n
    → w.db ≡ (delete_resolved_before before db).1
    → IsQuiet w.db
    → deliver env d w ≡ deliver_now env d w
purge_reopens_one_shot env before db n d w one gone all done after quiet =
    deliver_quiet env d w quiet one ∙ ap (λ b. (if b then pure tt else deliver_now env d) w) unseen
  where
    purged : IsPurged before db (delete_resolved_before before db).1
    purged =
        let (ends, same, first, whole) = delete_resolved_before_atomic before db in
        (whole n all done).0

    unseen : any (Notifications.for_subscription d.sub.id) w.db.notifications ≡ false
    unseen =
        rw after (purged_unseen before db (delete_resolved_before before db).1 d.sub.id gone purged)

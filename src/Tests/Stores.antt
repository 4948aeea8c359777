-- ===== src/Tests/Stores.antt =====
-- The repositories and the pruner at small tables.
use signalwatch.Base.{
  Bool, ◌==◌, true, false, String, ◌≡◌, ◌≢◌, ◌↔◌, ◌⊎◌, refl, [], ◌∷◌, ◌++◌, map, none, some,
}
use signalwatch.Base.Int.{pos}
use signalwatch.Base.Lists.{any, select}
use signalwatch.Base.Result.{ok}
use signalwatch.Subscriber.{Incident, Labels, NotificationKind, IncidentSubState}
use signalwatch.Rule.State.{seed}
use signalwatch.Store.Db.{Db, IncidentRow, NotificationRow}
use signalwatch.Store.LiveStates
use signalwatch.Store.LiveStates.RoundTrip.{stored, get-upsert_live}
use signalwatch.Store.SubStates
use signalwatch.Store.SubStates.RoundTrip.{get-upsert_sub}
use signalwatch.Store.SubStates.RoundTrip
use signalwatch.Store.Subscriptions.{match_labels}
use signalwatch.Store.Subscriptions.Match.{Satisfies, match_labels_iff}
use signalwatch.Store.Incidents
use signalwatch.Store.Incidents.{delete_resolved_before}
use signalwatch.Store.Incidents.Purge.{IsPurged}
use signalwatch.Store.Incidents.Atomic.{quiet-IsRead}
use signalwatch.Retention.{Config, Pruning, cutoff, run_once, started}
use signalwatch.Retention.Kept.{is_kept, is_kept-started}
use signalwatch.Retention.Pass.{entry, listed, run_once_exact}
use signalwatch.Retention.OneShot.{purge_reopens_one_shot}
use signalwatch.Dispatcher.Deliver.{deliver, deliver_now}
use signalwatch.Dispatcher.World.{World}
use signalwatch.Tests.Data.{ann_db, start, env}
use signalwatch.Tests.Dispatch.{second}

get-upsert_live_example :
    ((LiveStates.get "hot" (LiveStates.upsert (seed "hot") ann_db).1).0
      ≡ ok (some (stored (seed "hot"))))
    × (◌≢◌ {A = String} "cold" "hot"
        → (LiveStates.get "cold" (LiveStates.upsert (seed "hot") ann_db).1).0
          ≡ (LiveStates.get "cold" ann_db).0)
get-upsert_live_example = get-upsert_live (seed "hot") "cold" ann_db refl

abbrev notified : IncidentSubState
notified = record {
  incident_id = "i1";
  subscription_id = "once";
  last_notified_at = pos 1234567;
  notify_count = 1;
  resolution_sent = false;
}

get-upsert_sub_example :
    ((SubStates.get "i1" "once" (SubStates.upsert notified ann_db).1).0
      ≡ ok (some (RoundTrip.stored notified)))
    × ((◌≢◌ {A = String} "i2" "i1") ⊎ (◌≢◌ {A = String} "once" "once")
        → (SubStates.get "i2" "once" (SubStates.upsert notified ann_db).1).0
          ≡ (SubStates.get "i2" "once" ann_db).0)
get-upsert_sub_example = get-upsert_sub notified "i2" "once" ann_db refl

abbrev wanted : Labels
wanted = ("team", "db") ∷ []

abbrev worn : Labels
worn = ("env", "prod") ∷ ("team", "db") ∷ []

match_labels_iff_example :
    (match_labels wanted worn ≡ true) ↔ ((wanted ≢ []) × Satisfies wanted worn)
match_labels_iff_example = match_labels_iff wanted worn

-- Two incidents, one of them resolved at 2 ms, each with a notification to "once".
abbrev old_row : IncidentRow
old_row = record {
  id = "i1";
  rule_id = "hot";
  triggered_at = pos 1;
  resolved_at = some (pos 2);
  last_value = "";
}

abbrev old_note : NotificationRow
old_note = record {
  id = "n1";
  incident_id = "i1";
  subscription_id = "once";
  subscriber_id = "ann";
  channel = "ops";
  address = "ann@example.com";
  kind = NotificationKind.firing;
  sent_at = pos 1;
  status = "ok";
  failure = "";
}

abbrev old_db : Db
old_db = record ann_db {
  incidents = old_row ∷ record old_row { id = "i2"; resolved_at = none } ∷ [];
  notifications = old_note ∷ [];
}

-- The driver fails after the first of two ids: the incident of the second is deleted and its
-- notification stays.
abbrev cut_db : Db
cut_db = record ann_db {
  incidents = old_row ∷ record old_row { id = "i9" } ∷ [];
  notifications = record old_note { incident_id = "i9" } ∷ [];
  faults = false ∷ false ∷ false ∷ true ∷ [];
}

cut_orphans :
    ((delete_resolved_before (pos 100) cut_db).0 ≡ ok 2)
    × ((delete_resolved_before (pos 100) cut_db).1.notifications ≡ cut_db.notifications)
unfolding delete_resolved_before select
cut_orphans = (refl, refl)

abbrev daily : Config
daily = record {
  has_store = true;
  window = pos 1000000;
  interval = pos 1000000;
  has_archiver = true;
}

abbrev before_pass : Pruning
before_pass = record { db = old_db; archive = []; failing = true ∷ []; failed = [] }

run_once_exact_example :
    ((run_once daily (pos 9000000) before_pass).archive
      ≡ [] ++ map (entry old_db) (listed (cutoff daily (pos 9000000)) old_db))
    × IsPurged (cutoff daily (pos 9000000)) old_db (run_once daily (pos 9000000) before_pass).db
run_once_exact_example = run_once_exact daily (pos 9000000) before_pass refl refl

-- The incident "i1" of before the start.
abbrev is_old : Incident → Bool
is_old inc = inc.id == "i1"

is_kept-started_example :
    is_kept is_old (started daily (pos 9000000) (pos 19000000 ∷ []) before_pass) ≡ true
unfolding any Incidents.of_row
is_kept-started_example =
    is_kept-started is_old daily (pos 9000000) (pos 19000000 ∷ []) before_pass refl refl

old_deleted : (delete_resolved_before (pos 100) old_db).0 ≡ ok 1
unfolding delete_resolved_before select
old_deleted = refl

abbrev after_purge : World
after_purge = record start { db = (delete_resolved_before (pos 100) old_db).1 }

purge_reopens_one_shot_example : deliver env second after_purge ≡ deliver_now env second after_purge
unfolding delete_resolved_before select any
purge_reopens_one_shot_example =
    purge_reopens_one_shot env (pos 100) old_db 1 second after_purge refl refl
      (quiet-IsRead (pos 100) old_db refl) old_deleted refl refl

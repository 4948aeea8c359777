-- ===== src/Retention/Pass.antt =====
-- What one pass archives and deletes.
use signalwatch.Base.{
  if◌then◌else◌, subst, true, ◌==◌, ◌≡◌, refl, sym, ◌∙◌, ap, List, [], ◌∷◌, ◌++◌, map,
}
use mathlib.Core.List.{append_assoc, append-nil}
use signalwatch.Base.Int.{ℤ, leb_ℤ}
use signalwatch.Base.Lists.{select, sort_by, nil_of_map-nil, nil_of_sort_by-nil}
use signalwatch.Base.Result.{Result, ok}
use signalwatch.Base.Time.{Time}
use signalwatch.Subscriber.{Incident, Notification}
use signalwatch.Store.Db.{Db, IsQuiet, fault, later, query-quiet}
use signalwatch.Store.Incidents
use signalwatch.Store.Incidents.{earliest_resolved, resolved_before}
use signalwatch.Store.Incidents.Purge.{IsPurged, IsPurged-of_none, candidates}
use signalwatch.Store.Incidents.Atomic.{
  delete_resolved_before_atomic, delete_resolved_before-quiet, quiet-IsRead,
}
use signalwatch.Store.Notifications
use signalwatch.Retention.{
  Archived, Pruning, Config, cutoff, archive_all, read_or_none, run_once, prune_listed,
}

-- The incidents that the pass lists, the earliest resolved first.
abbrev pub listed : ℤ → Db → List Incident
listed before db =
    map Incidents.of_row (sort_by earliest_resolved (select (resolved_before before) db.incidents))

-- An incident with its notifications in the order in which they were sent.
abbrev pub entry : Db → Incident → Archived
entry db inc = record {
  incident = inc;
  notifications = map Notifications.of_row (
      sort_by (λ a b. leb_ℤ a.sent_at b.sent_at)
        (select (λ r. r.incident_id == inc.id) db.notifications));
}

archive_all_quiet :
    (incs : List Incident) (p : Pruning)
    → IsQuiet p.db
    → ((archive_all incs p).archive ≡ p.archive ++ map (entry p.db) incs)
      × ((archive_all incs p).db ≡ p.db)
unfolding archive_all Notifications.list_for_incident
archive_all_quiet [] p quiet = (sym (append-nil p.archive), refl)
archive_all_quiet (inc ∷ incs) p quiet =
    let next : Result (List Notification) × Db → Pruning = λ x.
      let call : Archived = record { incident = inc; notifications = read_or_none x.0 } in
      record {
        db = x.1;
        archive = p.archive ++ call ∷ [];
        failing = later p.failing;
        failed = if fault p.failing then call ∷ p.failed else p.failed;
      } in
    let q = next (ok (entry p.db inc).notifications, p.db) in
    let step : archive_all (inc ∷ incs) p ≡ archive_all incs q =
      ap (λ x. archive_all incs (next x)) (query-quiet _ p.db quiet) in
    let (calls, same) = archive_all_quiet incs q quiet in
    (
      ap (λ r. r.archive) step
          ∙ calls
          ∙ append_assoc p.archive (entry p.db inc ∷ []) (map (entry p.db) incs),
      ap (λ r. r.db) step ∙ same,
    )

none_listed : (before : ℤ) (db : Db) → listed before db ≡ [] → candidates before db ≡ []
none_listed before db h = ap (map (λ r. r.id)) (
    nil_of_sort_by-nil earliest_resolved (select (resolved_before before) db.incidents)
      (nil_of_map-nil Incidents.of_row _ h))

purge_quiet :
    (before : ℤ) (db : Db)
    → IsQuiet db
    → IsPurged before db (Incidents.delete_resolved_before before db).1
purge_quiet before db quiet =
    let (n, done) = delete_resolved_before-quiet before db quiet in
    let (ends, same, first, whole) = delete_resolved_before_atomic before db in
    (whole n (quiet-IsRead before db quiet) done).0

pass_listed :
    (c : Config) (now : Time) (p : Pruning) (incs : List Incident)
    → IsQuiet p.db
    → c.has_archiver ≡ true
    → incs ≡ listed (cutoff c now) p.db
    → ((prune_listed c now (ok incs) p).archive ≡ p.archive ++ map (entry p.db) incs)
      × IsPurged (cutoff c now) p.db (prune_listed c now (ok incs) p).db
unfolding prune_listed cutoff
pass_listed c now p [] quiet set same = (
  sym (append-nil p.archive),
  IsPurged-of_none (cutoff c now) p.db p.db.faults (none_listed (cutoff c now) p.db (sym same)),
)
pass_listed c now p (inc ∷ incs) quiet set same =
    let (calls, same) = archive_all_quiet (inc ∷ incs) p quiet in
    rw set (
      calls,
      subst
          (λ db.
            IsPurged (cutoff c now) p.db (Incidents.delete_resolved_before (cutoff c now) db).1)
          (sym same) (purge_quiet (cutoff c now) p.db quiet),
    )

-- A pass of the pruner with an archiver hands every incident that was resolved before the cutoff
-- to the archiver with all its notifications, the earliest resolved first, and then deletes
-- exactly these incidents with their notifications and delivery states. The database does not
-- fail; what the archiver answers makes no difference.
pub run_once_exact :
    (c : Config) (now : Time) (p : Pruning)
    → IsQuiet p.db
    → c.has_archiver ≡ true
    → let before = cutoff c now in
      ((run_once c now p).archive ≡ p.archive ++ map (entry p.db) (listed before p.db))
      × IsPurged before p.db (run_once c now p).db
unfolding run_once Incidents.list_resolved_before
run_once_exact c now p quiet set =
    rw (query-quiet _ p.db quiet) (pass_listed c now p (listed (cutoff c now) p.db) quiet set refl)

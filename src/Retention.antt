-- ===== src/Retention.antt =====
-- internal/retention/retention.go: the pruner.
pub mod Pass
pub mod OneShot
pub mod Kept
use signalwatch.Base.{Bool, String, List, [], ◌∷◌, ◌++◌, true, false, not, if◌then◌else◌}
use signalwatch.Base.Int.{ℤ, pos, leb_ℤ}
use signalwatch.Base.Result.{Error, Result, ok, err, error}
use signalwatch.Base.Time.{Time, Duration, add, negate, unix_milli}
use signalwatch.Subscriber.{Incident, Notification}
use signalwatch.Store.Db.{Db, fault, later}
use signalwatch.Store.Incidents
use signalwatch.Store.Notifications

-- One call of `Archive`.
pub record Archived : Type 0 where
  pub incident : Incident
  pub notifications : List Notification

-- The database, the calls of `Archive` so far, whether each of the calls to come fails, and the
-- calls that failed, the latest first. A failed call is a line of the log: its incident is deleted
-- like the others.
pub record Pruning : Type 0 where
  pub db : Db
  pub archive : List Archived
  pub failing : List Bool
  pub failed : List Archived

-- `cfg.Window`, `cfg.Interval`, and whether `cfg.Store` and `cfg.Archiver` are set.
pub record Config : Type 0 where
  pub has_store : Bool
  pub window : Duration
  pub interval : Duration
  pub has_archiver : Bool

-- `New`: the interval is an hour unless it is positive.
unfoldable pub new : Config → Result Config
new c =
    if not c.has_store
    then err (error "retention: Store required")
    else if leb_ℤ c.window (pos 0)
    then err (error "retention: Window must be > 0")
    else if leb_ℤ c.interval (pos 0)
    then ok (record c { interval = pos 3600000000000 })
    else ok c

-- The cutoff in milliseconds.
unfoldable pub cutoff : Config → Time → ℤ
cutoff c now = unix_milli (add now (negate c.window))

-- The notifications of an incident, or none where they cannot be read.
abbrev pub read_or_none : Result (List Notification) → List Notification
read_or_none (ok ns) = ns
read_or_none (err e) = []

-- The loop over the candidates: each is handed to the archiver with its notifications.
unfoldable pub archive_all : List Incident → Pruning → Pruning
archive_all [] p = p
archive_all (inc ∷ incs) p =
    let (r, db') = Notifications.list_for_incident inc.id p.db in
    let entry : Archived = record { incident = inc; notifications = read_or_none r } in
    archive_all incs (record {
      db = db';
      archive = p.archive ++ entry ∷ [];
      failing = later p.failing;
      failed = if fault p.failing then entry ∷ p.failed else p.failed;
    })

unfoldable archive_if : Bool → List Incident → Pruning → Pruning
unfolding archive_all
archive_if true incs p = archive_all incs p
archive_if false incs p = p

-- The pass after the candidates are listed. An error of the delete only goes to the log.
unfoldable pub prune_listed : Config → Time → Result (List Incident) → Pruning → Pruning
unfolding archive_if
prune_listed c now (err e) p = p
prune_listed c now (ok []) p = p
prune_listed c now (ok (inc ∷ incs)) p =
    let q = archive_if c.has_archiver (inc ∷ incs) p in
    record q { db = (Incidents.delete_resolved_before (cutoff c now) q.db).1 }

-- `RunOnce`, at the time `now`.
unfoldable pub run_once : Config → Time → Pruning → Pruning
run_once c now p =
    let (r, db') = Incidents.list_resolved_before (cutoff c now) p.db in
    prune_listed c now r (record p { db = db' })

-- The loop of `Start` over the times of the ticks, until the context ends.
unfoldable pub run_ticks : Config → List Time → Pruning → Pruning
unfolding run_once
run_ticks c [] p = p
run_ticks c (now ∷ ticks) p = run_ticks c ticks (run_once c now p)

-- `Start`: a pass at once, and then one at each tick.
unfoldable pub started : Config → Time → List Time → Pruning → Pruning
unfolding run_once run_ticks
started c now ticks p = run_ticks c ticks (run_once c now p)

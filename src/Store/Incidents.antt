-- ===== src/Store/Incidents.antt =====
-- incidentRepo of internal/store/sqlite/sqlite.go.
pub mod Purge
pub mod Atomic
use signalwatch.Base.{
  ℕ, Bool, true, false, not, String, ◌==◌, List, [], ◌∷◌, Option, none, some, map, ◌++◌,
  if◌then◌else◌,
}
use signalwatch.Base.Int.{ℤ, pos, negsuc, ltb_ℤ, leb_ℤ}
use signalwatch.Base.Lists.{length, take, find, any, select, update_where, sort_by}
use signalwatch.Base.Result.{Result, ok, err, driver, Exec}
use signalwatch.Base.Time.{Time, zero_time, unix_milli, of_unix_milli}
use signalwatch.Subscriber.{Incident}
use signalwatch.Store.Db.{Db, IncidentRow, query, exec, exec_checked, fault, tick}

abbrev of_resolved : Option ℤ → Time
of_resolved none = zero_time
of_resolved (some ms) = of_unix_milli ms

-- `scanIncident`.
unfoldable pub of_row : IncidentRow → Incident
of_row r = record {
  id = r.id;
  rule_id = r.rule_id;
  triggered_at = of_unix_milli r.triggered_at;
  resolved_at = of_resolved r.resolved_at;
  last_value = r.last_value;
}

abbrev pub has_id : String → IncidentRow → Bool
has_id id r = r.id == id

-- The row that `Open` inserts: `resolved_at` is NULL.
unfoldable pub open_row : Incident → IncidentRow
open_row inc = record {
  id = inc.id;
  rule_id = inc.rule_id;
  triggered_at = unix_milli inc.triggered_at;
  resolved_at = none;
  last_value = inc.last_value;
}

-- `Open`: the id is the primary key.
unfoldable pub open_incident : Incident → Exec Db (Unit {0})
open_incident inc =
    exec_checked (λ db. not (any (has_id inc.id) db.incidents))
      (λ db. record db { incidents = db.incidents ++ open_row inc ∷ [] })

-- `Resolve`.
unfoldable pub resolve : String → ℤ → Exec Db (Unit {0})
resolve id resolved_at = exec λ db. record db {
  incidents =
      update_where (has_id id) (λ r. record r { resolved_at = some resolved_at }) db.incidents;
}

abbrev found : Option IncidentRow → Option Incident
found none = none
found (some r) = some (of_row r)

-- `Get`: nil where there is no row.
unfoldable pub get : String → Exec Db (Option Incident)
get id = query (λ db. found (find (has_id id) db.incidents))

-- The limit of a page: 100 unless it is positive.
unfoldable pub page : ℤ → ℕ
page (pos n) = if leb_ℤ (pos n) (pos 0) then 100 else n
page (negsuc n) = 100

abbrev pub latest_first : IncidentRow → IncidentRow → Bool
latest_first a b = leb_ℤ b.triggered_at a.triggered_at

-- `List`: ORDER BY triggered_at DESC LIMIT.
unfoldable pub list : ℤ → Exec Db (List Incident)
unfolding page
list limit = query (λ db. map of_row (take (page limit) (sort_by latest_first db.incidents)))

-- `ListForRule`.
unfoldable pub list_for_rule : String → ℤ → Exec Db (List Incident)
unfolding page
list_for_rule rule limit = query λ db.
    map of_row
      (take (page limit) (sort_by latest_first (select (λ r. r.rule_id == rule) db.incidents)))

-- `resolved_at IS NOT NULL AND resolved_at < before`.
abbrev resolved_test : ℤ → Option ℤ → Bool
resolved_test before none = false
resolved_test before (some ms) = ltb_ℤ ms before

abbrev pub resolved_before : ℤ → IncidentRow → Bool
resolved_before before r = resolved_test before r.resolved_at

abbrev resolved_order : Option ℤ → Option ℤ → Bool
resolved_order none b = true
resolved_order (some a) none = false
resolved_order (some a) (some b) = leb_ℤ a b

abbrev pub earliest_resolved : IncidentRow → IncidentRow → Bool
earliest_resolved a b = resolved_order a.resolved_at b.resolved_at

-- `ListResolvedBefore`: ORDER BY resolved_at.
unfoldable pub list_resolved_before : ℤ → Exec Db (List Incident)
list_resolved_before before =
    query
      λ db. map of_row (sort_by earliest_resolved (select (resolved_before before) db.incidents))

-- One round of the cascade: the two child deletes for one incident id.
unfoldable pub delete_children : String → Db → Db
delete_children id db = record db {
  notifications = select (λ n. not (n.incident_id == id)) db.notifications;
  sub_states = select (λ s. not (s.incident_id == id)) db.sub_states;
}

-- The statements of the transaction, and whether one of them fails: the deletes of each candidate.
unfoldable pub cascade : List String → Exec Db (Unit {0})
unfolding delete_children
cascade [] db = (ok tt, db)
cascade (id ∷ ids) db =
    let rest = cascade ids (delete_children id (tick (tick db))) in
    if fault db.faults
    then (err driver, tick db)
    else if fault (tick db).faults
    then (err driver, tick (tick db))
    else rest

-- The last DELETE and COMMIT, with the number of rows deleted.
unfoldable pub delete_and_commit : ℤ → Exec Db ℕ
delete_and_commit before db =
    if fault db.faults
    then (err driver, tick db)
    else let db' = tick db in
      if fault db'.faults then (err driver, tick db') else (
        ok (length (select (resolved_before before) db.incidents)),
        record (tick db') { incidents = select (λ r. not (resolved_before before r)) db.incidents },
      )

-- ROLLBACK: the tables as they were when the transaction began.
abbrev pub rollback : Db → Result ℕ × Db → Result ℕ × Db
rollback db (ok n, db') = (ok n, db')
rollback db (err e, db') = (err e, record db { faults = db'.faults })

abbrev pub after_cascade : ℤ → Result (Unit {0}) × Db → Result ℕ × Db
after_cascade before (ok u, db) = delete_and_commit before db
after_cascade before (err e, db) = (err e, db)

unfoldable pub delete_candidates : ℤ → List String → Exec Db ℕ
unfolding cascade delete_and_commit
delete_candidates before [] db = if fault db.faults then (err driver, tick db) else (ok 0, tick db)
delete_candidates before (id ∷ ids) db = after_cascade before (cascade (id ∷ ids) db)

-- The loop of `rows.Next` over the candidate ids. Where the driver fails in it the loop ends, and
-- since `rows.Err` is not asked the ids read so far pass for all of them.
unfoldable pub read_ids : List String → Db → List String × Db
read_ids [] db = ([], db)
read_ids (id ∷ ids) db =
    let (rest, db') = read_ids ids (tick db) in
    if fault db.faults then ([], tick db) else (id ∷ rest, db')

-- `DeleteResolvedBefore`: BEGIN, the candidate ids, the cascade, the delete, COMMIT.
unfoldable pub delete_resolved_before : ℤ → Exec Db ℕ
unfolding delete_candidates read_ids
delete_resolved_before before db =
    if fault db.faults
    then (err driver, tick db)
    else let db' = tick db in
      if fault db'.faults
      then (err driver, tick db')
      else let (ids, db'') =
          read_ids (map (λ r. r.id) (select (resolved_before before) db.incidents)) (tick db') in
        rollback db' (delete_candidates before ids db'')

-- ===== src/Retention/Kept.antt =====
-- What the passes of the pruner hand to the archiver before it is gone from the database.
use signalwatch.Base.{
  ℕ, String, ◌⊎◌, Bool, true, false, not, ◌≡◌, refl, ap, ◌∙◌, List, [], ◌∷◌, ◌++◌, map,
  if◌then◌else◌, arith, Bool-cases, inl, inr,
}
use signalwatch.Base.Int.{ℤ}
use signalwatch.Base.Lists.{any, any-append, any-map, select, sort_by}
use signalwatch.Base.Sorting.{any-sort_by}
use signalwatch.Base.Result.{Error, Result, ok, err}
use signalwatch.Base.Time.{Time}
use signalwatch.Subscriber.{Incident}
use signalwatch.Store.Db.{later, Db, IncidentRow, fault, query}
use signalwatch.Store.Incidents
use signalwatch.Store.Incidents.{earliest_resolved, resolved_before}
use signalwatch.Store.Incidents.Atomic.{Ends, SameTables, read, delete_resolved_before_atomic}
use signalwatch.Store.Notifications
use signalwatch.Retention.{
  Archived, Pruning, Config, cutoff, archive_all, archive_if, prune_listed, read_or_none, run_once,
  run_ticks, started,
}

any-split :
    {A : Type 0} (g p : A → Bool) (xs : List A)
    → any g xs ≡ true
    → any g (select (λ x. not (p x)) xs) ≡ false
    → any g (select p xs) ≡ true
unfolding any select
any-split g p [] h k = absurd (ground arith)
any-split g p (x ∷ xs) h k = ground (arith, any-split g p xs)

incidents-list_for_incident :
    (id : String) (db : Db) → (Notifications.list_for_incident id db).1.incidents ≡ db.incidents
unfolding Notifications.list_for_incident query
incidents-list_for_incident id db = elim (Bool-cases (fault db.faults)) [
  | inl e ↦ simp (e) refl
  | inr e ↦ simp (e) refl
]

rows_left :
    (before : ℤ) (db : Db) (p : Result ℕ × Db)
    → Ends before (read before db) db p.0 p.1
    → ((e : Error) → p.0 ≡ err e → SameTables db p.1)
    → (p.1.incidents ≡ select (λ r. not (resolved_before before r)) db.incidents)
      ⊎ (p.1.incidents ≡ db.incidents)
rows_left before db (ok n, db') (inl (none, zeroes, same)) undone = inr (ap (λ d. d.incidents) same)
rows_left before db (ok n, db') (inr (deleted, count)) undone = inl deleted.incidents
rows_left before db (err e, db') ends undone = inr (ap (λ d. d.incidents) (undone e refl))

-- A purge leaves the incidents that are not past the cutoff, or all of them.
incidents-delete_resolved_before :
    (before : ℤ) (db : Db)
    → ((Incidents.delete_resolved_before before db).1.incidents
        ≡ select (λ r. not (resolved_before before r)) db.incidents)
      ⊎ ((Incidents.delete_resolved_before before db).1.incidents ≡ db.incidents)
incidents-delete_resolved_before before db =
    let (ends, undone, first, whole) = delete_resolved_before_atomic before db in
    rows_left before db (Incidents.delete_resolved_before before db) ends undone

module _ (f : Incident → Bool) where
  -- Some stored incident, or some incident that was handed to the archiver, passes the test.
  abbrev pub stored : Db → Bool
  stored db = any (λ r. f (Incidents.of_row r)) db.incidents

  abbrev pub handed : Pruning → Bool
  handed p = any (λ a. f a.incident) p.archive

  abbrev pub is_kept : Pruning → Bool
  is_kept p = if stored p.db then true else handed p

  handed-archive_all :
      (incs : List Incident) (p : Pruning)
      → (handed (archive_all incs p) ≡ (if handed p then true else any f incs))
        × ((archive_all incs p).db.incidents ≡ p.db.incidents)
  unfolding archive_all Notifications.list_for_incident query any
  handed-archive_all [] p = (ground arith, refl)
  handed-archive_all (inc ∷ incs) p =
      let (r, db') = Notifications.list_for_incident inc.id p.db in
      let entry : Archived = record { incident = inc; notifications = read_or_none r } in
      let q : Pruning = record {
        db = db';
        archive = p.archive ++ entry ∷ [];
        failing = later p.failing;
        failed = if fault p.failing then entry ∷ p.failed else p.failed;
      } in
      let (found, same) = handed-archive_all incs q in
      (
        ground (arith, found, any-append (λ a. f a.incident) p.archive (entry ∷ [])),
        same ∙ incidents-list_for_incident inc.id p.db,
      )

  -- What is not left in the table after the purge was handed over before it.
  left_kept :
      (before : ℤ) (incs : List Incident) (p q : Pruning) (rows : List IncidentRow)
      → any f incs
        ≡ any (λ r. f (Incidents.of_row r)) (select (resolved_before before) p.db.incidents)
      → handed q ≡ (if handed p then true else any f incs)
      → q.db.incidents ≡ p.db.incidents
      → (rows ≡ select (λ r. not (resolved_before before r)) q.db.incidents)
        ⊎ (rows ≡ q.db.incidents)
      → is_kept p ≡ true
      → (if any (λ r. f (Incidents.of_row r)) rows then true else handed q) ≡ true
  left_kept before incs p q rows same found still (inr e) h =
      rw (e, still, found) (ground (arith, h))
  left_kept before incs p q rows same found still (inl e) h =
      let g = λ (r : IncidentRow). f (Incidents.of_row r) in
      rw (e, still, found, same)
        (ground (arith, h, any-split g (resolved_before before) p.db.incidents))

  any-listed :
      (before : ℤ) (rows : List IncidentRow)
      → any f
          (map Incidents.of_row (sort_by earliest_resolved (select (resolved_before before) rows)))
        ≡ any (λ r. f (Incidents.of_row r)) (select (resolved_before before) rows)
  any-listed before rows =
      any-map Incidents.of_row f (sort_by earliest_resolved (select (resolved_before before) rows))
      ∙ any-sort_by earliest_resolved (λ r. f (Incidents.of_row r))
          (select (resolved_before before) rows)

  is_kept-prune_listed :
      (c : Config) (now : Time) (incs : List Incident) (p : Pruning)
      → c.has_archiver ≡ true
      → any f incs
        ≡ any (λ r. f (Incidents.of_row r)) (select (resolved_before (cutoff c now)) p.db.incidents)
      → is_kept p ≡ true
      → is_kept (prune_listed c now (ok incs) p) ≡ true
  unfolding prune_listed archive_if
  is_kept-prune_listed c now [] p set same h = h
  is_kept-prune_listed c now (inc ∷ incs) p set same h =
      let q = archive_all (inc ∷ incs) p in
      let (found, rows) = handed-archive_all (inc ∷ incs) p in
      let db' = (Incidents.delete_resolved_before (cutoff c now) q.db).1 in
      simp (set) (
        left_kept (cutoff c now) (inc ∷ incs) p q db'.incidents same found rows
          (incidents-delete_resolved_before (cutoff c now) q.db) h)

  is_kept-run_once :
      (c : Config) (now : Time) (p : Pruning)
      → c.has_archiver ≡ true
      → is_kept p ≡ true
      → is_kept (run_once c now p) ≡ true
  unfolding run_once Incidents.list_resolved_before query prune_listed
  is_kept-run_once c now p set h = elim (Bool-cases (fault p.db.faults)) [
    | inl e ↦ simp (e) h
    | inr e ↦
        simp (e) (is_kept-prune_listed c now _ _ set (any-listed (cutoff c now) p.db.incidents) h)
  ]

  is_kept-run_ticks :
      (c : Config) (ticks : List Time) (p : Pruning)
      → c.has_archiver ≡ true
      → is_kept p ≡ true
      → is_kept (run_ticks c ticks p) ≡ true
  unfolding run_ticks
  is_kept-run_ticks c [] p set h = h
  is_kept-run_ticks c (now ∷ ticks) p set h =
      is_kept-run_ticks c ticks (run_once c now p) set (is_kept-run_once c now p set h)

  -- No incident leaves the table before it was handed to the archiver. Whatever holds of an incident
  -- that is stored, or was handed over, when the pruner starts holds of one that is stored or was
  -- handed over after any number of its passes, wherever the database fails. An archiver is set, and
  -- may fail.
  pub is_kept-started :
      (c : Config) (now : Time) (ticks : List Time) (p : Pruning)
      → c.has_archiver ≡ true
      → is_kept p ≡ true
      → is_kept (started c now ticks p) ≡ true
  unfolding started
  is_kept-started c now ticks p set h =
      is_kept-run_ticks c ticks (run_once c now p) set (is_kept-run_once c now p set h)

-- ===== src/Store/Incidents/Atomic.antt =====
-- `DeleteResolvedBefore` as a whole, for every failure of the database.
use signalwatch.Base.{
  ℕ, false, String, ◌≡◌, ◌⊎◌, refl, sym, subst, ap, ◌∙◌, List, [], ◌∷◌, ◌++◌, arith, Bool-cases,
  inl, inr,
}
use signalwatch.Base.Int.{ℤ}
use signalwatch.Base.Lists.{length, select, nil_of_map-nil}
use signalwatch.Base.Result.{Error, Result, ok, err, driver, err_not_ok}
use signalwatch.Store.Db.{Db, fault, tick, later, IsQuiet}
use signalwatch.Store.Incidents.{
  resolved_before, cascade, delete_children, delete_and_commit, delete_candidates, read_ids,
  delete_resolved_before, after_cascade, rollback,
}
use signalwatch.Store.Incidents.Purge.{
  IsPurged, IsDeleted, IsCascaded, IsPurged-of_deleted, IsPurged-of_none, candidates,
  commit-IsDeleted, cascade-IsCascaded,
}

ok-injective : {A : Type 0} (m n : A) → ok m ≡ ok n → m ≡ n
ok-injective m n h = cc

-- The ids that the transaction reads.
abbrev pub read : ℤ → Db → List String
read before db = (read_ids (candidates before db) (tick (tick db))).0

-- The ids of all resolved incidents are read.
abbrev pub IsRead : ℤ → Db → Type 0
IsRead before db = read before db ≡ candidates before db

-- The same tables, whatever the faults to come.
abbrev pub SameTables : Db → Db → Type 0
SameTables db db' = db' ≡ record db { faults = db'.faults }

-- What the transaction leaves for each of its results, once it has read some ids.
abbrev pub Ends : ℤ → List String → Db → Result ℕ → Db → Type 0
Ends before ids db (ok n) db' =
    ((ids ≡ []) × (n ≡ 0) × SameTables db db')
    ⊎ (IsDeleted before ids db db' × (n ≡ length (select (resolved_before before) db.incidents)))
Ends before ids db (err e) db' = Unit

commit-Ends :
    (before : ℤ) (ids : List String) (db : Db) (r : Result (Unit {0})) (db' : Db)
    → (r ≡ ok tt → IsCascaded ids db db')
    → Ends before ids db (after_cascade before (r, db')).0 (after_cascade before (r, db')).1
commit-Ends before ids db (err e) db' c = tt
commit-Ends before ids db (ok u) db' c = go (delete_and_commit before db').0 refl
  where
    go :
        (r : Result ℕ)
        → (delete_and_commit before db').0 ≡ r
        → Ends before ids db (delete_and_commit before db').0 (delete_and_commit before db').1
    go (ok n) e = rw e (inr (commit-IsDeleted before ids db db' n (c refl) e))
    go (err x) e = rw e tt

candidates_end :
    (before : ℤ) (db : Db) (ids : List String)
    → Ends before ids db (delete_candidates before ids db).0 (delete_candidates before ids db).1
unfolding delete_candidates
candidates_end before db [] = elim (Bool-cases (fault db.faults)) [
  | inl f ↦ rw f tt
  | inr f ↦ rw f (inl (refl, refl, refl))
]
candidates_end before db (id ∷ ids) =
    commit-Ends before (id ∷ ids) db (cascade (id ∷ ids) db).0 (cascade (id ∷ ids) db).1
      (cascade-IsCascaded (id ∷ ids) db)

Ends-rollback :
    (before : ℤ) (ids : List String) (db db0 : Db) (p : Result ℕ × Db)
    → Ends before ids db p.0 p.1
    → Ends before ids db (rollback db0 p).0 (rollback db0 p).1
Ends-rollback before ids db db0 (ok n, db') h = h
Ends-rollback before ids db db0 (err e, db') h = tt

-- The faults to come are no part of what a transaction leaves.
Ends-faults :
    (before : ℤ) (ids : List String) (db s : Db) (p : Result ℕ × Db)
    → SameTables db s
    → Ends before ids s p.0 p.1
    → Ends before ids db p.0 p.1
Ends-faults before ids db s p same h = moved p (rw same at h)
  where
    moved :
        (p : Result ℕ × Db)
        → Ends before ids (record db { faults = s.faults }) p.0 p.1
        → Ends before ids db p.0 p.1
    moved (err e, db') h = tt
    moved (ok n, db') (inl h) = inl h
    moved (ok n, db') (inr (d, count)) = inr (
      record {
        incidents = d.incidents;
        notifications = d.notifications;
        sub_states = d.sub_states;
        others = d.others;
      },
      count,
    )

rollback-SameTables :
    (db : Db) (p : Result ℕ × Db) (e : Error)
    → (rollback db p).0 ≡ err e
    → SameTables db (rollback db p).1
rollback-SameTables db (ok n, db') e h = cc
rollback-SameTables db (err x, db') e h = refl

read_ids-SameTables : (ids : List String) (db : Db) → SameTables db (read_ids ids db).1
unfolding read_ids
read_ids-SameTables [] db = refl
read_ids-SameTables (id ∷ ids) db = elim (Bool-cases (fault db.faults)) [
  | inl f ↦ simp (f) refl
  | inr f ↦ simp (f) (read_ids-SameTables ids (tick db))
]

-- What is read is a first part of the ids.
read_ids-first :
    (ids : List String) (db : Db) → (rest : List String) × ((read_ids ids db).0 ++ rest ≡ ids)
unfolding read_ids
read_ids-first [] db = ([], refl)
read_ids-first (id ∷ ids) db = elim (Bool-cases (fault db.faults)) [
  | inl f ↦ simp (f) (id ∷ ids, refl)
  | inr f ↦ let (rest, e) = read_ids-first ids (tick db) in simp (f) (rest, ap (λ l. id ∷ l) e)
]

-- Where all ids were read the purge is whole.
IsPurged-read :
    (before : ℤ) (ids : List String) (db : Db) (p : Result ℕ × Db) (n : ℕ)
    → ids ≡ candidates before db
    → p.0 ≡ ok n
    → Ends before ids db p.0 p.1
    → IsPurged before db p.1 × (n ≡ length (select (resolved_before before) db.incidents))
IsPurged-read before ids db (err e, db') n all h ends = absurd (cc)
IsPurged-read before ids db (ok m, db') n all h (inr (d, count)) =
    (IsPurged-of_deleted before ids db db' all d, sym (ok-injective m n h) ∙ count)
IsPurged-read before ids db (ok m, db') n all h (inl (nothing, zeroes, same)) =
    let none = sym all ∙ nothing in
    (
      subst (IsPurged before db) (sym same) (IsPurged-of_none before db db'.faults none),
      sym (ok-injective m n h)
          ∙ zeroes
          ∙ sym (
              ap length
                (nil_of_map-nil (λ r. r.id) (select (resolved_before before) db.incidents) none)),
    )

pub delete_resolved_before_atomic :
    (before : ℤ) (db : Db)
    → let (r, db') = delete_resolved_before before db in
      Ends before (read before db) db r db'
      × ((e : Error) → r ≡ err e → SameTables db db')
      × ((rest : List String) × (read before db ++ rest ≡ candidates before db))
      × ((n : ℕ)
          → IsRead before db
          → r ≡ ok n
          → IsPurged before db db' × (n ≡ length (select (resolved_before before) db.incidents)))
unfolding delete_resolved_before
delete_resolved_before_atomic before db =
    let first = read_ids-first (candidates before db) (tick (tick db)) in
    elim (Bool-cases (fault db.faults)) [
      | inl f ↦ simp (f) (tt, (λ e h. refl), first, λ n all h. absurd (err_not_ok driver n h))
      | inr f ↦ elim (Bool-cases (fault (later db.faults))) [
        | inl g ↦ simp (f, g) (tt, (λ e h. refl), first, λ n all h. absurd (err_not_ok driver n h))
        | inr g ↦
            let (ids, s) = read_ids (candidates before db) (tick (tick db)) in
            let p = delete_candidates before ids s in
            let ends : Ends before ids db (rollback (tick db) p).0 (rollback (tick db) p).1 =
              Ends-rollback before ids db (tick db) p (
                Ends-faults before ids db s p
                  (read_ids-SameTables (candidates before db) (tick (tick db)))
                  (candidates_end before s ids)) in
            simp (f, g)
              (
                ends,
                (λ e h. rollback-SameTables (tick db) p e h),
                first,
                λ n all h. IsPurged-read before ids db (rollback (tick db) p) n all h ends,
              )
      ]
    ]

read_ids-IsQuiet :
    (ids : List String) (db : Db)
    → IsQuiet db
    → ((read_ids ids db).0 ≡ ids) × IsQuiet (read_ids ids db).1
unfolding read_ids
read_ids-IsQuiet [] db quiet = (refl, quiet)
read_ids-IsQuiet (id ∷ ids) db quiet =
    let calm : fault db.faults ≡ false = ground arith in
    let (all, still) = read_ids-IsQuiet ids (tick db) (ground arith) in
    simp (calm) (ap (λ l. id ∷ l) all, still)

-- Where the database does not fail all ids are read.
pub quiet-IsRead : (before : ℤ) (db : Db) → IsQuiet db → IsRead before db
quiet-IsRead before db quiet =
    (read_ids-IsQuiet (candidates before db) (tick (tick db)) (ground arith)).0

cascade-IsQuiet :
    (ids : List String) (db : Db)
    → IsQuiet db
    → ((cascade ids db).0 ≡ ok tt) × IsQuiet (cascade ids db).1
cascade-IsQuiet [] db quiet = unfold cascade in (refl, quiet)
cascade-IsQuiet (id ∷ ids) db quiet =
    let next = delete_children id (tick (tick db)) in
    let step : cascade (id ∷ ids) db ≡ cascade ids next = unfold cascade in ground arith in
    rw step (cascade-IsQuiet ids next (unfold delete_children in ground arith))

delete_and_commit-quiet :
    (before : ℤ) (db : Db) → IsQuiet db → (n : ℕ) × ((delete_and_commit before db).0 ≡ ok n)
unfolding delete_and_commit
delete_and_commit-quiet before db quiet =
    (length (select (resolved_before before) db.incidents), ground arith)

after_cascade-quiet :
    (before : ℤ) (r : Result (Unit {0})) (db : Db)
    → r ≡ ok tt
    → IsQuiet db
    → (n : ℕ) × ((after_cascade before (r, db)).0 ≡ ok n)
after_cascade-quiet before (ok u) db e quiet = delete_and_commit-quiet before db quiet
after_cascade-quiet before (err x) db e quiet = absurd (cc)

delete_candidates-quiet :
    (before : ℤ) (ids : List String) (db : Db)
    → IsQuiet db
    → (n : ℕ) × ((delete_candidates before ids db).0 ≡ ok n)
unfolding delete_candidates
delete_candidates-quiet before [] db quiet = (0, ground arith)
delete_candidates-quiet before (id ∷ ids) db quiet =
    let done = cascade-IsQuiet (id ∷ ids) db quiet in
    after_cascade-quiet before (cascade (id ∷ ids) db).0 (cascade (id ∷ ids) db).1 done.0 done.1

rollback_ok : (db : Db) (p : Result ℕ × Db) (n : ℕ) → p.0 ≡ ok n → (rollback db p).0 ≡ ok n
rollback_ok db (ok m, db') n h = h
rollback_ok db (err e, db') n h = cc

-- Where the database does not fail the purge succeeds.
pub delete_resolved_before-quiet :
    (before : ℤ) (db : Db) → IsQuiet db → (n : ℕ) × ((delete_resolved_before before db).0 ≡ ok n)
unfolding delete_resolved_before
delete_resolved_before-quiet before db quiet =
    let first : fault db.faults ≡ false = ground arith in
    let second : fault (later db.faults) ≡ false = ground arith in
    let (ids, s) = read_ids (candidates before db) (tick (tick db)) in
    let still : IsQuiet s =
      (read_ids-IsQuiet (candidates before db) (tick (tick db)) (ground arith)).1 in
    let (n, done) = delete_candidates-quiet before ids s still in
    (n, simp (first, second) (rollback_ok (tick db) _ n done))

-- ===== src/Store/Postgres/Refines/Purge.antt =====
-- The repository of incidents, with the transaction that deletes the old ones.
use signalwatch.Base.{
  ℕ, not, String, ◌==◌, ◌≡◌, refl, sym, subst, ap, List, [], ◌∷◌, map, Bool-cases, inl, inr,
}
use signalwatch.Base.Int.{ℤ}
use signalwatch.Base.Lists.{select}
use signalwatch.Base.Result.{Result, ok, err}
use signalwatch.Subscriber.{Incident}
use signalwatch.Store.Db
use signalwatch.Store.Db.{fault, later}
use signalwatch.Store.Incidents
use signalwatch.Store.Postgres.Db as Pg
use signalwatch.Store.Postgres.Incidents as PgIncidents
use signalwatch.Store.Postgres.View.{
  Refines, Agrees, view, query-Refines, exec-Refines, exec_checked-Refines, plain_notification,
  select-map,
}

children :
    (id : String) (db : Pg.Db)
    → view (PgIncidents.delete_children id db) ≡ Incidents.delete_children id (view db)
unfolding PgIncidents.delete_children Incidents.delete_children
children id db =
    ap
      (λ l. record (view db) {
        notifications = l;
        sub_states = select (λ s. not (s.incident_id == id)) db.sub_states;
      })
      (sym (select-map plain_notification (λ n. not (n.incident_id == id)) db.notifications))

cascade-Refines : (ids : List String) → Refines (PgIncidents.cascade ids) (Incidents.cascade ids)
unfolding PgIncidents.cascade Incidents.cascade
cascade-Refines [] db = (refl, refl)
cascade-Refines (id ∷ ids) db = elim (Bool-cases (fault db.faults)) [
  | inl a ↦ simp (a) (tt, refl)
  | inr a ↦ elim (Bool-cases (fault (later db.faults))) [
    | inl b ↦ simp (a, b) (tt, refl)
    | inr b ↦
        let db' = Pg.tick (Pg.tick db) in
        let rest = cascade-Refines ids (PgIncidents.delete_children id db') in
        simp (a, b)
          (subst
            (λ v.
              Agrees (PgIncidents.cascade ids (PgIncidents.delete_children id db')).0
                (Incidents.cascade ids v).0
              × (view (PgIncidents.cascade ids (PgIncidents.delete_children id db')).1
                  ≡ (Incidents.cascade ids v).1))
            (children id db') rest)
  ]
]

commit-Refines :
    (before : ℤ)
    → Refines (PgIncidents.delete_and_commit before) (Incidents.delete_and_commit before)
unfolding PgIncidents.delete_and_commit Incidents.delete_and_commit
commit-Refines before db = elim (Bool-cases (fault db.faults)) [
  | inl a ↦ simp (a) (tt, refl)
  | inr a ↦ elim (Bool-cases (fault (later db.faults))) [
    | inl b ↦ simp (a, b) (tt, refl)
    | inr b ↦ simp (a, b) (refl, refl)
  ]
]

-- Two outcomes on databases that read alike.
abbrev Alike : {A : Type 0} → Result A × Pg.Db → Result A × Db.Db → Type 0
Alike x y = Agrees x.0 y.0 × (view x.1 ≡ y.1)

after-Alike :
    (before : ℤ) (x : Result (Unit {0}) × Pg.Db) (y : Result (Unit {0}) × Db.Db)
    → Alike x y
    → Alike (PgIncidents.after_cascade before x) (Incidents.after_cascade before y)
after-Alike before (ok u, db) (ok v, plain) h =
    subst
      (λ p. Alike (PgIncidents.delete_and_commit before db) (Incidents.delete_and_commit before p))
      h.1 (commit-Refines before db)
after-Alike before (err e, db) (err x, plain) h = h
after-Alike before (ok u, db) (err x, plain) h = absurd h.0
after-Alike before (err e, db) (ok v, plain) h = absurd h.0

rollback-Alike :
    (db : Pg.Db) (x : Result ℕ × Pg.Db) (y : Result ℕ × Db.Db)
    → Alike x y
    → Alike (PgIncidents.rollback db x) (Incidents.rollback (view db) y)
rollback-Alike db (ok n, s) (ok k, t) h = h
rollback-Alike db (err e, s) (err x, t) h =
    (tt, ap (λ p. record (view db) { faults = p.faults }) h.1)
rollback-Alike db (ok n, s) (err x, t) h = absurd h.0
rollback-Alike db (err e, s) (ok k, t) h = absurd h.0

candidates-Refines :
    (before : ℤ) (ids : List String)
    → Refines (PgIncidents.delete_candidates before ids) (Incidents.delete_candidates before ids)
unfolding PgIncidents.delete_candidates Incidents.delete_candidates
candidates-Refines before [] db = elim (Bool-cases (fault db.faults)) [
  | inl a ↦ simp (a) (tt, refl)
  | inr a ↦ simp (a) (refl, refl)
]
candidates-Refines before (id ∷ ids) db =
    after-Alike before (PgIncidents.cascade (id ∷ ids) db) (Incidents.cascade (id ∷ ids) (view db))
      (cascade-Refines (id ∷ ids) db)

read_ids-Alike :
    (ids : List String) (db : Pg.Db)
    → ((PgIncidents.read_ids ids db).0 ≡ (Incidents.read_ids ids (view db)).0)
      × (view (PgIncidents.read_ids ids db).1 ≡ (Incidents.read_ids ids (view db)).1)
unfolding PgIncidents.read_ids Incidents.read_ids
read_ids-Alike [] db = (refl, refl)
read_ids-Alike (id ∷ ids) db = elim (Bool-cases (fault db.faults)) [
  | inl a ↦ simp (a) (refl, refl)
  | inr a ↦
      let (same, rest) = read_ids-Alike ids (Pg.tick db) in simp (a) (ap (λ l. id ∷ l) same, rest)
]

-- The same ids, on databases that read alike.
candidates-Alike :
    (before : ℤ) (ids is : List String) (db : Pg.Db) (plain : Db.Db)
    → ids ≡ is
    → view db ≡ plain
    → Alike
        (PgIncidents.delete_candidates before ids db)
        (Incidents.delete_candidates before is plain)
candidates-Alike before ids is db plain e f =
    subst
      (λ l.
        Alike (PgIncidents.delete_candidates before ids db)
          (Incidents.delete_candidates before l plain))
      e
      (subst
        (λ p.
          Alike (PgIncidents.delete_candidates before ids db)
            (Incidents.delete_candidates before ids p))
        f (candidates-Refines before ids db))

purge-Refines :
    (before : ℤ)
    → Refines (PgIncidents.delete_resolved_before before) (Incidents.delete_resolved_before before)
unfolding PgIncidents.delete_resolved_before Incidents.delete_resolved_before
purge-Refines before db = elim (Bool-cases (fault db.faults)) [
  | inl a ↦ simp (a) (tt, refl)
  | inr a ↦ elim (Bool-cases (fault (later db.faults))) [
    | inl b ↦ simp (a, b) (tt, refl)
    | inr b ↦
        let ids = map (λ r. r.id) (select (Incidents.resolved_before before) db.incidents) in
        let db' = Pg.tick (Pg.tick db) in
        let (pg, s) = PgIncidents.read_ids ids db' in
        let (plain, t) = Incidents.read_ids ids (view db') in
        let (same, rest) = read_ids-Alike ids db' in
        simp (a, b)
          (rollback-Alike (Pg.tick db) (PgIncidents.delete_candidates before pg s)
            (Incidents.delete_candidates before plain t)
            (candidates-Alike before pg plain s t same rest))
  ]
]

-- The repository of incidents.
pub incidents-Refines :
    (inc : Incident) (id rule : String) (at before limit : ℤ)
    → Refines (PgIncidents.open_incident inc) (Incidents.open_incident inc)
      × Refines (PgIncidents.resolve id at) (Incidents.resolve id at)
      × Refines (PgIncidents.get id) (Incidents.get id)
      × Refines (PgIncidents.list limit) (Incidents.list limit)
      × Refines (PgIncidents.list_for_rule rule limit) (Incidents.list_for_rule rule limit)
      × Refines (PgIncidents.list_resolved_before before) (Incidents.list_resolved_before before)
      × Refines
          (PgIncidents.delete_resolved_before before)
          (Incidents.delete_resolved_before before)
unfolding PgIncidents.open_incident Incidents.open_incident PgIncidents.resolve Incidents.resolve
    PgIncidents.get Incidents.get PgIncidents.list Incidents.list PgIncidents.list_for_rule
    Incidents.list_for_rule PgIncidents.list_resolved_before Incidents.list_resolved_before
    PgIncidents.of_row Incidents.of_row PgIncidents.open_row Incidents.open_row
incidents-Refines inc id rule at before limit = (
  exec_checked-Refines _ _ _ _ (λ db. refl) (λ db. refl),
  exec-Refines _ _ (λ db. refl),
  query-Refines _ _ (λ db. refl),
  query-Refines _ _ (λ db. refl),
  query-Refines _ _ (λ db. refl),
  query-Refines _ _ (λ db. refl),
  purge-Refines before,
)

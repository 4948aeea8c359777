-- ===== src/Store/Incidents/Purge.antt =====
-- `DeleteResolvedBefore` is one transaction: it removes the resolved incidents with all that hangs
-- on them, or nothing.
use signalwatch.Base.{
  ℕ, Bool, not, ◌&&◌, String, ◌==◌, ◌≡◌, refl, sym, ◌∙◌, ap, List, [], ◌∷◌, map, arith, Bool-cases,
  inl, inr,
}
use signalwatch.Base.Int.{ℤ}
use signalwatch.Base.Lists.{
  length, any, select, select-select, select-cong, select-true, any-map-select, nil_of_map-nil,
  select-not_of_none,
}
use signalwatch.Base.Result.{ok}
use signalwatch.Store.Db.{Db, fault, tick, later}
use signalwatch.Store.Incidents.{resolved_before, cascade, delete_and_commit, delete_children}

-- The incident is in the table and resolved before the cutoff.
abbrev pub is_doomed : ℤ → Db → String → Bool
is_doomed before db id = any (λ r. resolved_before before r && id == r.id) db.incidents

abbrev pub in_ids : List String → String → Bool
in_ids ids id = any (λ j. id == j) ids

-- What is left of the three tables, and that the others are untouched.
pub record IsPurged (before : ℤ) (db db' : Db) : Type 0 where
  pub incidents : db'.incidents ≡ select (λ r. not (resolved_before before r)) db.incidents
  pub notifications :
      db'.notifications ≡ select (λ n. not (is_doomed before db n.incident_id)) db.notifications
  pub sub_states :
      db'.sub_states ≡ select (λ s. not (is_doomed before db s.incident_id)) db.sub_states
  pub others :
      (db'.rules ≡ db.rules)
      × (db'.subscribers ≡ db.subscribers)
      × (db'.subscriptions ≡ db.subscriptions)
      × (db'.live_states ≡ db.live_states)
      × (db'.api_tokens ≡ db.api_tokens)

-- What a cascade over some ids leaves, if it ends well.
pub record IsCascaded (ids : List String) (db db' : Db) : Type 0 where
  pub incidents : db'.incidents ≡ db.incidents
  pub notifications :
      db'.notifications ≡ select (λ n. not (in_ids ids n.incident_id)) db.notifications
  pub sub_states : db'.sub_states ≡ select (λ s. not (in_ids ids s.incident_id)) db.sub_states
  pub others :
      (db'.rules ≡ db.rules)
      × (db'.subscribers ≡ db.subscribers)
      × (db'.subscriptions ≡ db.subscriptions)
      × (db'.live_states ≡ db.live_states)
      × (db'.api_tokens ≡ db.api_tokens)

select_step :
    {A : Type 0} (key : A → String) (id : String) (ids : List String) (xs : List A)
    → select (λ n. not (in_ids ids (key n))) (select (λ n. not (key n == id)) xs)
      ≡ select (λ n. not (in_ids (id ∷ ids) (key n))) xs
unfolding any
select_step key id ids xs = select-select _ _ xs ∙ select-cong _ _ xs (λ n. ground arith)

none_dropped :
    {A : Type 0} (key : A → String) (xs : List A) → xs ≡ select (λ n. not (in_ids [] (key n))) xs
unfolding any
none_dropped key xs = sym (select-true _ xs (λ n. refl))

IsCascaded-step :
    (id : String) (ids : List String) (db db' : Db)
    → IsCascaded ids (delete_children id (tick (tick db))) db'
    → IsCascaded (id ∷ ids) db db'
unfolding delete_children
IsCascaded-step id ids db db' c = record {
  incidents = c.incidents;
  notifications = c.notifications ∙ select_step (λ n. n.incident_id) id ids db.notifications;
  sub_states = c.sub_states ∙ select_step (λ s. s.incident_id) id ids db.sub_states;
  others = c.others;
}

cascade_step :
    (id : String) (ids : List String) (db : Db)
    → (cascade (id ∷ ids) db).0 ≡ ok tt
    → cascade (id ∷ ids) db ≡ cascade ids (delete_children id (tick (tick db)))
unfolding cascade
cascade_step id ids db h = ground arith

pub cascade-IsCascaded :
    (ids : List String) (db : Db)
    → (cascade ids db).0 ≡ ok tt
    → IsCascaded ids db (cascade ids db).1
cascade-IsCascaded [] db h =
    unfold cascade in
    record {
      incidents = refl;
      notifications = none_dropped (λ n. n.incident_id) db.notifications;
      sub_states = none_dropped (λ s. s.incident_id) db.sub_states;
      others = (refl, refl, refl, refl, refl);
    }
cascade-IsCascaded (id ∷ ids) db h =
    let step = cascade_step id ids db h in
    rw step (
      IsCascaded-step id ids db _
        (cascade-IsCascaded ids (delete_children id (tick (tick db))) (rw step at h)))

abbrev pub candidates : ℤ → Db → List String
candidates before db = map (λ r. r.id) (select (resolved_before before) db.incidents)

in_candidates :
    (before : ℤ) (db : Db) (id : String) → in_ids (candidates before db) id ≡ is_doomed before db id
in_candidates before db id =
    any-map-select (λ j. id == j) (λ r. r.id) (resolved_before before) db.incidents

drop-is_doomed :
    {A : Type 0} (key : A → String) (before : ℤ) (db : Db) (xs : List A)
    → select (λ n. not (in_ids (candidates before db) (key n))) xs
      ≡ select (λ n. not (is_doomed before db (key n))) xs
drop-is_doomed key before db xs = select-cong _ _ xs (λ n. ap not (in_candidates before db (key n)))

-- What is left where the children of some ids are deleted, and then all resolved incidents.
pub record IsDeleted (before : ℤ) (ids : List String) (db db' : Db) : Type 0 where
  pub incidents : db'.incidents ≡ select (λ r. not (resolved_before before r)) db.incidents
  pub notifications :
      db'.notifications ≡ select (λ n. not (in_ids ids n.incident_id)) db.notifications
  pub sub_states : db'.sub_states ≡ select (λ s. not (in_ids ids s.incident_id)) db.sub_states
  pub others :
      (db'.rules ≡ db.rules)
      × (db'.subscribers ≡ db.subscribers)
      × (db'.subscriptions ≡ db.subscriptions)
      × (db'.live_states ≡ db.live_states)
      × (db'.api_tokens ≡ db.api_tokens)

-- Where the ids are those of all resolved incidents, no child is left behind.
pub IsPurged-of_deleted :
    (before : ℤ) (ids : List String) (db db' : Db)
    → ids ≡ candidates before db
    → IsDeleted before ids db db'
    → IsPurged before db db'
IsPurged-of_deleted before ids db db' all c = record {
  incidents = c.incidents;
  notifications =
      c.notifications
      ∙ ap (λ is. select (λ n. not (in_ids is n.incident_id)) db.notifications) all
      ∙ drop-is_doomed (λ n. n.incident_id) before db db.notifications;
  sub_states =
      c.sub_states
      ∙ ap (λ is. select (λ s. not (in_ids is s.incident_id)) db.sub_states) all
      ∙ drop-is_doomed (λ s. s.incident_id) before db db.sub_states;
  others = c.others;
}

-- Where no incident is resolved before the cutoff, nothing is left to purge.
pub IsPurged-of_none :
    (before : ℤ) (db : Db) (fs : List Bool)
    → candidates before db ≡ []
    → IsPurged before db (record db { faults = fs })
IsPurged-of_none before db fs none =
    IsPurged-of_deleted before [] db (record db { faults = fs }) (sym none)
      (record {
        incidents = sym (
            select-not_of_none (resolved_before before) db.incidents
              (nil_of_map-nil (λ r. r.id) (select (resolved_before before) db.incidents) none));
        notifications = none_dropped (λ n. n.incident_id) db.notifications;
        sub_states = none_dropped (λ s. s.incident_id) db.sub_states;
        others = (refl, refl, refl, refl, refl);
      })

pub commit-IsDeleted :
    (before : ℤ) (ids : List String) (db db' : Db) (n : ℕ)
    → IsCascaded ids db db'
    → (delete_and_commit before db').0 ≡ ok n
    → IsDeleted before ids db (delete_and_commit before db').1
      × (n ≡ length (select (resolved_before before) db.incidents))
unfolding delete_and_commit
commit-IsDeleted before ids db db' n c h = elim (Bool-cases (fault db'.faults)) [
  | inl e ↦ absurd (ground arith)
  | inr e ↦ elim (Bool-cases (fault (later db'.faults))) [
    | inl e' ↦ absurd (ground arith)
    | inr e' ↦
        simp (e, e')
          (
            record {
              incidents = ap (select (λ r. not (resolved_before before r))) c.incidents;
              notifications = c.notifications;
              sub_states = c.sub_states;
              others = c.others;
            },
            ground (arith, ap (λ rs. length (select (resolved_before before) rs)) c.incidents),
          )
  ]
]

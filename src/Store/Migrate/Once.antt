-- ===== src/Store/Migrate/Once.antt =====
-- What a migration applies.
use signalwatch.Base.{
  Bool, true, false, String, ◌≡◌, refl, sym, ap, subst, ◌∙◌, List, [], ◌∷◌, ◌++◌, arith, eq_refl,
  Bool-cases, inl, inr,
}
use signalwatch.Base.Lists.{All, any, any-append}
use signalwatch.Base.Result.{Result, driver, ok, err, Result-cases, err_not_ok}
use signalwatch.Store.Db.{fault, later}
use signalwatch.Store.Migrate.{
  Schema, Entry, tick, statement, create_table, is_version, count_version, commit, names_of, apply,
  migrate_one, migrate_all, migrate,
}

module _ (read_file : String → Result String) where
  -- How versions and scripts grow: one script at a time, never one that is recorded, together with
  -- its version.
  pub data Grows (versions ran : List String) : List String → List String → Type 0 where
    stay : Grows versions ran versions ran
    grow :
        {name body : String} {vs rs : List String}
        → Grows versions ran vs rs
        → any (is_version name) vs ≡ false
        → read_file name ≡ ok body
        → Grows versions ran (vs ++ name ∷ []) (rs ++ body ∷ [])

module _ (read_file : String → Result String) (vs rs : List String) where
  abbrev Grown : Schema → Type 0
  Grown s = Grows read_file vs rs s.versions s.ran

  -- Every call keeps what has grown, and where it succeeds every name is recorded.
  abbrev Recorded : String → Schema → Type 0
  Recorded name s = any (is_version name) s.versions ≡ true

  abbrev Leaves : (Schema → Type 0) → Result (Unit {0}) × Schema → Type 0
  Leaves P (ok u, s) = Grown s × P s
  Leaves P (err e, s) = Grown s

  recorded_last :
      (name : String) (versions : List String)
      → any (is_version name) (versions ++ name ∷ []) ≡ true
  unfolding any
  recorded_last name versions =
      ground (arith, any-append (is_version name) versions (name ∷ []), eq_refl name)

  commit-Leaves :
      (name body : String) (s : Schema)
      → Grown s
      → any (is_version name) s.versions ≡ false
      → read_file name ≡ ok body
      → Leaves (Recorded name) (commit name body s)
  unfolding commit
  commit-Leaves name body s g fresh is = elim (Bool-cases (fault s.faults)) [
    | inl e ↦ simp (e) g
    | inr e ↦ simp (e) (Grows.grow g fresh is, recorded_last name s.versions)
  ]

  apply-Leaves :
      (name : String) (s : Schema)
      → Grown s
      → any (is_version name) s.versions ≡ false
      → Leaves (Recorded name) (apply read_file name s)
  unfolding apply statement
  apply-Leaves name s g fresh = elim (Result-cases (read_file name)) [
    | inr (x, bad) ↦ simp (bad) g
    | inl (body, is) ↦ elim (Bool-cases (fault s.faults)) [
      | inl a ↦ simp (is, a) g
      | inr a ↦ elim (Bool-cases (fault (later s.faults))) [
        | inl b ↦ simp (is, a, b) g
        | inr b ↦ elim (Bool-cases (fault (later (later s.faults)))) [
          | inl c ↦ simp (is, a, b, c) g
          | inr c ↦ simp (is, a, b, c) (commit-Leaves name body (tick (tick (tick s))) g fresh is)
        ]
      ]
    ]
  ]

  migrate_one-Leaves :
      (name : String) (s : Schema) → Grown s → Leaves (Recorded name) (migrate_one read_file name s)
  unfolding migrate_one count_version
  migrate_one-Leaves name s g = elim (Bool-cases (fault s.faults)) [
    | inl e ↦ simp (e) g
    | inr e ↦ elim (Bool-cases (any (is_version name) s.versions)) [
      | inl old ↦ simp (e, old) (g, refl)
      | inr fresh ↦ simp (e, fresh) (apply-Leaves name (tick s) g fresh)
    ]
  ]

  -- The part of the promise that holds of errors too.
  Leaves-Grown : (P : Schema → Type 0) (x : Result (Unit {0}) × Schema) → Leaves P x → Grown x.1
  Leaves-Grown P (ok u, s) h = h.0
  Leaves-Grown P (err e, s) h = h

  Leaves-ok :
      (P : Schema → Type 0) (x : Result (Unit {0}) × Schema) → Leaves P x → x.0 ≡ ok tt → P x.1
  Leaves-ok P (ok u, s) h e = h.1
  Leaves-ok P (err x, s) h e = absurd (err_not_ok x tt e)

  migrate_all-Grown :
      (names : List String) (s : Schema) → Grown s → Grown (migrate_all read_file names s).1
  unfolding migrate_all
  migrate_all-Grown [] s g = g
  migrate_all-Grown (name ∷ names) s g =
      let now =
        Leaves-Grown (Recorded name) (migrate_one read_file name s) (migrate_one-Leaves name s g) in
      elim (Result-cases (migrate_one read_file name s).0) [
        | inl (u, e) ↦ simp (e) (migrate_all-Grown names (migrate_one read_file name s).1 now)
        | inr (x, e) ↦ simp (e) now
      ]

module _ (read_file : String → Result String) where
  Grows-kept :
      {vs rs vs' rs' : List String} (p : String → Bool)
      → Grows read_file vs rs vs' rs'
      → any p vs ≡ true
      → any p vs' ≡ true
  Grows-kept p Grows.stay h = h
  Grows-kept p (Grows.grow {name} {body} {vs} g fresh is) h =
      ground (arith, any-append p vs (name ∷ []), Grows-kept p g h)

  migrate_all-recorded :
      (names : List String) (s : Schema)
      → (migrate_all read_file names s).0 ≡ ok tt
      → All (λ n. any (is_version n) (migrate_all read_file names s).1.versions ≡ true) names
  unfolding migrate_all
  migrate_all-recorded [] s h = tt
  migrate_all-recorded (name ∷ names) s h = elim (Result-cases (migrate_one read_file name s).0) [
    | inr (x, e) ↦ absurd (err_not_ok x tt (simp (e) at h))
    | inl (u, e) ↦
        let s' = (migrate_one read_file name s).1 in
        let now =
          Leaves-ok read_file s.versions s.ran (Recorded read_file s.versions s.ran name)
            (migrate_one read_file name s)
            (migrate_one-Leaves read_file s.versions s.ran name s Grows.stay) e in
        let rest = migrate_all-Grown read_file s'.versions s'.ran names s' Grows.stay in
        let run : migrate_all read_file (name ∷ names) s ≡ migrate_all read_file names s' =
          simp (e) refl in
        subst (λ x. All (λ n. any (is_version n) x.1.versions ≡ true) (name ∷ names)) (sym run)
          (
            Grows-kept (is_version name) rest now,
            migrate_all-recorded names s' (ap (λ x. x.0) (sym run) ∙ h),
          )
  ]

  -- Where every name is recorded, and no statement fails, the loop does nothing.
  migrate_all_idle :
      (names : List String) (s : Schema)
      → s.faults ≡ []
      → All (λ n. any (is_version n) s.versions ≡ true) names
      → migrate_all read_file names s ≡ (ok tt, s)
  unfolding migrate_all migrate_one count_version
  migrate_all_idle [] s quiet all = refl
  migrate_all_idle (name ∷ names) s quiet all =
      let still : tick s ≡ s = ground (arith, quiet) in
      let calm : fault s.faults ≡ false = ground (arith, quiet) in
      simp (calm, all.0)
        (ap (migrate_all read_file names) still ∙ migrate_all_idle names s quiet all.1)

  module _ (has_suffix : String → String → Bool) where
    migrate-Grows :
        (entries : Result (List Entry)) (s : Schema)
        → let (r, s') = migrate read_file has_suffix entries s in
          Grows read_file s.versions s.ran s'.versions s'.ran
    unfolding migrate create_table
    migrate-Grows (ok found) s = elim (Bool-cases (fault s.faults)) [
      | inl e ↦ simp (e) Grows.stay
      | inr e ↦ simp (e) (
          migrate_all-Grown read_file s.versions s.ran (names_of has_suffix found)
            (record (tick s) { has_table = true }) Grows.stay)
    ]
    migrate-Grows (err x) s = elim (Bool-cases (fault s.faults)) [
      | inl e ↦ simp (e) Grows.stay
      | inr e ↦ simp (e) Grows.stay
    ]

    migrate-recorded :
        (found : List Entry) (s : Schema)
        → let (r, s') = migrate read_file has_suffix (ok found) s in
          r ≡ ok tt → All (λ n. any (is_version n) s'.versions ≡ true) (names_of has_suffix found)
    unfolding migrate create_table
    migrate-recorded found s h = elim (Bool-cases (fault s.faults)) [
      | inl e ↦ absurd (err_not_ok driver tt (simp (e) at h))
      | inr e ↦
          let s' = record (tick s) { has_table = true } in
          let names = names_of has_suffix found in
          let run : migrate read_file has_suffix (ok found) s ≡ migrate_all read_file names s' =
            simp (e) refl in
          subst (λ x. All (λ n. any (is_version n) x.1.versions ≡ true) names) (sym run)
            (migrate_all-recorded names s' (ap (λ x. x.0) (sym run) ∙ h))
    ]

    migrate_idle :
        (found : List Entry) (s : Schema)
        → s.faults ≡ []
        → All (λ n. any (is_version n) s.versions ≡ true) (names_of has_suffix found)
        → migrate read_file has_suffix (ok found) s ≡ (ok tt, record s { has_table = true })
    unfolding migrate create_table
    migrate_idle found s quiet all =
        let s' = record s { has_table = true } in
        let still : record (tick s) { has_table = true } ≡ s' = ground (arith, quiet) in
        let calm : fault s.faults ≡ false = ground (arith, quiet) in
        simp (calm) (
          ap (migrate_all read_file (names_of has_suffix found)) still
          ∙ migrate_all_idle (names_of has_suffix found) s' quiet all)

    -- Each migration is applied once, wherever the database fails. In every run the scripts grow
    -- one at a time, each together with the version that records it and none that was recorded
    -- before. If the run succeeds, every script of the directory is recorded; and a run after that
    -- succeeds and applies nothing, where the database does not fail.
    pub migrations_apply_once :
        (found : List Entry) (s : Schema)
        → let (r, s') = migrate read_file has_suffix (ok found) s in
          Grows read_file s.versions s.ran s'.versions s'.ran
          × (r ≡ ok tt
              → All (λ n. any (is_version n) s'.versions ≡ true) (names_of has_suffix found)
                × (s'.faults ≡ []
                    → migrate read_file has_suffix (ok found) s'
                      ≡ (ok tt, record s' { has_table = true })))
    migrations_apply_once found s =
        let s' = (migrate read_file has_suffix (ok found) s).1 in
        (
          migrate-Grows (ok found) s,
          λ h.
              let all = migrate-recorded found s h in
              (all, λ quiet. migrate_idle found s' quiet all),
        )

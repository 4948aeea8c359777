-- ===== src/Store/Mysql/Trail.antt =====
-- What one script of a MySQL migration leaves behind, wherever it fails.
use signalwatch.Base.{
  true, false, String, ◌≡◌, refl, sym, ap, subst, ◌∙◌, List, [], ◌∷◌, ◌++◌, arith, eq_refl,
  Bool-cases, inl, inr,
}
use mathlib.Core.List.{append_assoc, append-nil}
use signalwatch.Base.Lists.{any, any-append}
use signalwatch.Base.Result.{Result, ok, err, continue, Result-cases}
use signalwatch.Store.Db.{fault}
use signalwatch.Store.Migrate.{Schema, tick, is_version, count_version}
use signalwatch.Store.Mysql.Script.{script_statements, split_statements-script}
use signalwatch.Store.Mysql.Migrate.{
  Strings, run_statement, run_statements, record_version, split_statements, apply, migrate_one,
}

-- All statements were executed, or the first ones and no more.
abbrev RunEnds : List String → Schema → Result (Unit {0}) × Schema → Type 0
RunEnds stmts s (ok u, s') = (s'.ran ≡ s.ran ++ stmts) × (s'.versions ≡ s.versions)
RunEnds stmts s (err e, s') =
    (xs : List String) × (ys : List String) × (xs ++ ys ≡ stmts)
    × (s'.ran ≡ s.ran ++ xs)
    × (s'.versions ≡ s.versions)

RunEnds-cons :
    (stmt : String) (stmts : List String) (s t : Schema) (x : Result (Unit {0}) × Schema)
    → t.ran ≡ s.ran ++ stmt ∷ []
    → t.versions ≡ s.versions
    → RunEnds stmts t x
    → RunEnds (stmt ∷ stmts) s x
RunEnds-cons stmt stmts s t (ok u, s') ran kept (more, same) =
    (more ∙ ap (λ l. l ++ stmts) ran ∙ append_assoc s.ran (stmt ∷ []) stmts, same ∙ kept)
RunEnds-cons stmt stmts s t (err e, s') ran kept (xs, ys, cut, more, same) = (
  stmt ∷ xs,
  ys,
  ap (λ l. stmt ∷ l) cut,
  more ∙ ap (λ l. l ++ xs) ran ∙ append_assoc s.ran (stmt ∷ []) xs,
  same ∙ kept,
)

run_statements-RunEnds :
    (stmts : List String) (s : Schema) → RunEnds stmts s (run_statements stmts s)
unfolding run_statements run_statement
run_statements-RunEnds [] s = (sym (append-nil s.ran), refl)
run_statements-RunEnds (stmt ∷ stmts) s = elim (Bool-cases (fault s.faults)) [
  | inl e ↦ simp (e) ([], stmt ∷ stmts, refl, sym (append-nil s.ran), refl)
  | inr e ↦
      let t = record (tick s) { ran = s.ran ++ stmt ∷ [] } in
      simp (e) (
        RunEnds-cons stmt stmts s t (run_statements stmts t) refl refl
          (run_statements-RunEnds stmts t))
]

module _ (strings : Strings) (read_file : String → Result String) where
  -- How versions and statements grow: by one script at a time, never one that is recorded, with all
  -- its statements and its version.
  pub data Whole (versions ran : List String) : List String → List String → Type 0 where
    stay : Whole versions ran versions ran
    whole :
        {name body : String} {vs rs : List String}
        → Whole versions ran vs rs
        → any (is_version name) vs ≡ false
        → read_file name ≡ ok body
        → Whole versions ran (vs ++ name ∷ []) (rs ++ script_statements strings body)

  -- The same with a last script that was cut: its first statements were executed, and it is not
  -- recorded.
  pub data Cut (versions ran : List String) : List String → List String → Type 0 where
    clean : {vs rs : List String} → Whole versions ran vs rs → Cut versions ran vs rs
    cut :
        {name body : String} {vs rs : List String} (xs ys : List String)
        → Whole versions ran vs rs
        → any (is_version name) vs ≡ false
        → read_file name ≡ ok body
        → xs ++ ys ≡ script_statements strings body
        → Cut versions ran vs (rs ++ xs)

module _ (strings : Strings) (read_file : String → Result String) (vs rs : List String) where
  abbrev pub Leaves : (Schema → Type 0) → Result (Unit {0}) × Schema → Type 0
  Leaves P (ok u, s) = Whole strings read_file vs rs s.versions s.ran × P s
  Leaves P (err e, s) = Cut strings read_file vs rs s.versions s.ran

  abbrev Recorded : String → Schema → Type 0
  Recorded name s = any (is_version name) s.versions ≡ true

  recorded_last :
      (name : String) (versions : List String)
      → any (is_version name) (versions ++ name ∷ []) ≡ true
  unfolding any
  recorded_last name versions =
      ground (arith, any-append (is_version name) versions (name ∷ []), eq_refl name)

  Cut-moved :
      {v v' r r' : List String}
      → v' ≡ v
      → r' ≡ r
      → Cut strings read_file vs rs v r
      → Cut strings read_file vs rs v' r'
  Cut-moved {v} {v'} {r} {r'} e f c =
      subst (λ w. Cut strings read_file vs rs w r') (sym e)
        (subst (λ w. Cut strings read_file vs rs v w) (sym f) c)

  Whole-moved :
      {v v' r r' : List String}
      → v' ≡ v
      → r' ≡ r
      → Whole strings read_file vs rs v r
      → Whole strings read_file vs rs v' r'
  Whole-moved {v} {v'} {r} {r'} e f c =
      subst (λ w. Whole strings read_file vs rs w r') (sym e)
        (subst (λ w. Whole strings read_file vs rs v w) (sym f) c)

  -- The version after the statements.
  record_version-Leaves :
      (name body : String) (s : Schema) (x : Result (Unit {0}) × Schema)
      → Whole strings read_file vs rs s.versions s.ran
      → any (is_version name) s.versions ≡ false
      → read_file name ≡ ok body
      → RunEnds (script_statements strings body) s x
      → Leaves (Recorded name) (continue x.0 (λ u. record_version name) x.1)
  unfolding record_version
  record_version-Leaves name body s (err e, t) g fresh is (xs, ys, halves, ran, kept) =
      Cut-moved kept ran (Cut.cut xs ys g fresh is halves)
  record_version-Leaves name body s (ok u, t) g fresh is (ran, kept) =
      elim (Bool-cases (fault t.faults)) [
        | inl e ↦
            let stmts = script_statements strings body in
            simp (e) (Cut-moved kept ran (Cut.cut stmts [] g fresh is (append-nil stmts)))
        | inr e ↦ simp (e) (
          Whole-moved (ap (λ v. v ++ name ∷ []) kept) ran (Whole.whole g fresh is),
          recorded_last name t.versions,
        )
      ]

  apply-Leaves :
      (name : String) (s : Schema)
      → Whole strings read_file vs rs s.versions s.ran
      → any (is_version name) s.versions ≡ false
      → Leaves (Recorded name) (apply strings read_file name s)
  unfolding apply
  apply-Leaves name s g fresh = elim (Result-cases (read_file name)) [
    | inr (x, bad) ↦ simp (bad) (Cut.clean g)
    | inl (body, is) ↦
        let stmts = split_statements strings body in
        simp (is) (
          record_version-Leaves name body s (run_statements stmts s) g fresh is (
            subst (λ l. RunEnds l s (run_statements stmts s)) (split_statements-script strings body)
              (run_statements-RunEnds stmts s)))
  ]

  pub migrate_one-Leaves :
      (name : String) (s : Schema)
      → Whole strings read_file vs rs s.versions s.ran
      → Leaves (Recorded name) (migrate_one strings read_file name s)
  unfolding migrate_one count_version
  migrate_one-Leaves name s g = elim (Bool-cases (fault s.faults)) [
    | inl e ↦ simp (e) (Cut.clean g)
    | inr e ↦ elim (Bool-cases (any (is_version name) s.versions)) [
      | inl old ↦ simp (e, old) (g, refl)
      | inr fresh ↦ simp (e, fresh) (apply-Leaves name (tick s) g fresh)
    ]
  ]

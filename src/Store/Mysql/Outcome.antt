-- ===== src/Store/Mysql/Outcome.antt =====
-- What a migration of MySQL leaves behind, wherever it fails.
use signalwatch.Base.{Bool, true, String, ◌≡◌, List, [], ◌∷◌, arith, Bool-cases, inl, inr}
use signalwatch.Base.Lists.{All, any, any-append}
use signalwatch.Base.Result.{Result, ok, err, continue}
use signalwatch.Store.Db.{fault}
use signalwatch.Store.Migrate.{Schema, Entry, tick, create_table, is_version, names_of}
use signalwatch.Store.Mysql.Migrate.{Strings, migrate_one, migrate_all, migrate}
use signalwatch.Store.Mysql.Trail.{Whole, Cut, Leaves, migrate_one-Leaves}

module _ (strings : Strings) (read_file : String → Result String) where
  Whole-kept :
      {vs rs vs' rs' : List String} (p : String → Bool)
      → Whole strings read_file vs rs vs' rs'
      → any p vs ≡ true
      → any p vs' ≡ true
  Whole-kept p Whole.stay h = h
  Whole-kept p (Whole.whole {name} {body} {vs} g fresh is) h =
      ground (arith, any-append p vs (name ∷ []), Whole-kept p g h)

  Whole-Whole :
      {vs rs vs' rs' ws qs : List String}
      → Whole strings read_file vs rs vs' rs'
      → Whole strings read_file vs' rs' ws qs
      → Whole strings read_file vs rs ws qs
  Whole-Whole g Whole.stay = g
  Whole-Whole g (Whole.whole h fresh is) = Whole.whole (Whole-Whole g h) fresh is

  Whole-Cut :
      {vs rs vs' rs' ws qs : List String}
      → Whole strings read_file vs rs vs' rs'
      → Cut strings read_file vs' rs' ws qs
      → Cut strings read_file vs rs ws qs
  Whole-Cut g (Cut.clean h) = Cut.clean (Whole-Whole g h)
  Whole-Cut g (Cut.cut xs ys h fresh is halves) = Cut.cut xs ys (Whole-Whole g h) fresh is halves

  -- Without an error only whole scripts were run, and all the names are recorded; with an error the
  -- last script may be cut.
  abbrev pub Outcome : List String → Schema → Result (Unit {0}) × Schema → Type 0
  Outcome names s x =
      Leaves strings read_file s.versions s.ran
        (λ t. All (λ n. any (is_version n) t.versions ≡ true) names) x

  Outcome-cons :
      (name : String) (names : List String) (s t : Schema) (x : Result (Unit {0}) × Schema)
      → Whole strings read_file s.versions s.ran t.versions t.ran
      → any (is_version name) t.versions ≡ true
      → Outcome names t x
      → Outcome (name ∷ names) s x
  Outcome-cons name names s t (ok u, w) g now (h, all) =
      (Whole-Whole g h, (Whole-kept (is_version name) h now, all))
  Outcome-cons name names s t (err e, w) g now h = Whole-Cut g h

  continue-Outcome :
      (name : String) (names : List String) (s : Schema) (x : Result (Unit {0}) × Schema)
      → ((t : Schema) → Outcome names t (migrate_all strings read_file names t))
      → Leaves strings read_file s.versions s.ran (λ t. any (is_version name) t.versions ≡ true) x
      → Outcome (name ∷ names) s (continue x.0 (λ u. migrate_all strings read_file names) x.1)
  continue-Outcome name names s (ok u, t) rest (g, now) =
      Outcome-cons name names s t (migrate_all strings read_file names t) g now (rest t)
  continue-Outcome name names s (err e, t) rest h = h

  migrate_all-Outcome :
      (names : List String) (s : Schema) → Outcome names s (migrate_all strings read_file names s)
  unfolding migrate_all
  migrate_all-Outcome [] s = (Whole.stay, tt)
  migrate_all-Outcome (name ∷ names) s =
      continue-Outcome name names s (migrate_one strings read_file name s)
        (migrate_all-Outcome names)
        (migrate_one-Leaves strings read_file s.versions s.ran name s Whole.stay)

  -- A migration of MySQL cuts one script at most. Whatever statements fail, where `Migrate` returns
  -- no error it ran scripts that were not recorded, each with all its statements in order, which are
  -- the trimmed texts between its semicolons that are not empty or comments only, and then
  -- its version, and every script of the directory is recorded. Where it returns an error, it ran
  -- such whole scripts and at most the first statements of one more, which is not recorded, so that
  -- the next run starts it over.
  pub mysql_migration_trail :
      (found : List Entry) (s : Schema)
      → Outcome (names_of strings.has_suffix found) s (migrate strings read_file (ok found) s)
  unfolding migrate create_table
  mysql_migration_trail found s = elim (Bool-cases (fault s.faults)) [
    | inl e ↦ simp (e) (Cut.clean Whole.stay)
    | inr e ↦ simp (e) (
        migrate_all-Outcome (names_of strings.has_suffix found)
          (record (tick s) { has_table = true }))
  ]

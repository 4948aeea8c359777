-- ===== src/Store/Mysql/Migrate.antt =====
-- `Migrate` and `splitStatements` of internal/store/mysql/mysql.go. The state is that of
-- Store/Migrate, where `ran` lists the statements that were executed, since each one stands at once.
use signalwatch.Base.{
  Bool, true, false, not, ◌&&◌, ◌||◌, String, ◌==◌, List, [], ◌∷◌, ◌++◌, if◌then◌else◌,
}
use signalwatch.Base.Result.{Result, ok, err, driver, Exec, pure, wrapping, ◌>>=◌, ◌>>◌}
use signalwatch.Store.Db.{fault}
use signalwatch.Store.Migrate.{Schema, Entry, tick, create_table, count_version, lift, names_of}

-- What the code uses of Go's package strings: `TrimSpace`, `Split`, `HasPrefix` and `HasSuffix`.
pub record Strings : Type 0 where
  pub trim_space : String → String
  pub split : String → String → List String
  pub has_prefix : String → String → Bool
  pub has_suffix : String → String → Bool

-- `s.db.ExecContext`: no transaction, so that a statement that succeeds stays.
unfoldable pub run_statement : String → Exec Schema (Unit {0})
run_statement stmt s =
    if fault s.faults
    then (err driver, tick s)
    else (ok tt, record (tick s) { ran = s.ran ++ stmt ∷ [] })

-- The statements of a script, up to the first that fails.
unfoldable pub run_statements : List String → Exec Schema (Unit {0})
unfolding run_statement
run_statements [] = pure tt
run_statements (stmt ∷ rest) = do wrapping "migrate" (run_statement stmt); run_statements rest

-- The row of `schema_migrations`.
unfoldable pub record_version : String → Exec Schema (Unit {0})
record_version name s =
    if fault s.faults
    then (err driver, tick s)
    else (ok tt, record (tick s) { versions = s.versions ++ name ∷ [] })

module _ (strings : Strings) where
  unfoldable pub are_comments : List String → Bool
  are_comments [] = true
  are_comments (line ∷ lines) =
      let rest = are_comments lines in
      let trimmed = strings.trim_space line in
      if not (trimmed == "") && not (strings.has_prefix trimmed "--") then false else rest

  -- `allLinesAreComments`.
  unfoldable pub all_lines_are_comments : String → Bool
  unfolding are_comments
  all_lines_are_comments s = are_comments (strings.split s "\n")

  -- The loop of `splitStatements` over the fragments.
  unfoldable pub statements_of : List String → List String
  unfolding all_lines_are_comments
  statements_of [] = []
  statements_of (raw ∷ fragments) =
      let rest = statements_of fragments in
      let stmt = strings.trim_space raw in
      if stmt == "" || all_lines_are_comments stmt then rest else stmt ∷ rest

  -- `splitStatements`.
  unfoldable pub split_statements : String → List String
  unfolding statements_of
  split_statements body = statements_of (strings.split body ";")

  module _ (read_file : String → Result String) where
    -- A script that is not recorded yet: its statements, and then its version.
    unfoldable pub apply : String → Exec Schema (Unit {0})
    unfolding run_statements split_statements record_version
    apply name = do
      body ← lift (read_file name)
      run_statements (split_statements body)
      record_version name

    -- One round of the loop.
    unfoldable pub migrate_one : String → Exec Schema (Unit {0})
    unfolding count_version apply
    migrate_one name = do exists ← count_version name; if exists then pure tt else apply name

    -- The loop over the names.
    unfoldable pub migrate_all : List String → Exec Schema (Unit {0})
    unfolding migrate_one
    migrate_all [] = pure tt
    migrate_all (name ∷ names) = do migrate_one name; migrate_all names

    -- `Migrate`, of the entries that `ReadDir` returns.
    unfoldable pub migrate : Result (List Entry) → Exec Schema (Unit {0})
    unfolding create_table names_of migrate_all
    migrate entries = do
      create_table
      found ← lift entries
      migrate_all (names_of strings.has_suffix found)

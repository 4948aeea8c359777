-- ===== src/Store/Migrate.antt =====
-- `Migrate` of internal/store/sqlite/sqlite.go.
pub mod Once
use text.Mathlib.Text.{is_le}
use Prim.Native.String.{compare}
use signalwatch.Base.{
  Bool, true, false, not, ◌&&◌, String, ◌==◌, List, [], ◌∷◌, ◌++◌, map, if◌then◌else◌,
}
use signalwatch.Base.Lists.{any, select, sort_by}
use signalwatch.Base.Result.{Result, ok, err, driver, wrap, Exec, pure, wrapping, ◌>>=◌, ◌>>◌}
use signalwatch.Store.Db.{fault, later}

-- What a migration works on: the table `schema_migrations`, and the scripts that were committed, in
-- order. Each statement to come may fail, as in Store/Db.
pub record Schema : Type 0 where
  pub has_table : Bool
  pub versions : List String
  pub ran : List String
  pub faults : List Bool

-- An entry of the directory `migrations` that is built into the program.
pub record Entry : Type 0 where
  pub name : String
  pub is_dir : Bool

abbrev pub tick : Schema → Schema
tick s = record s { faults = later s.faults }

-- A statement inside a transaction: what it writes stands only once the transaction commits.
unfoldable pub statement : Exec Schema (Unit {0})
statement s = if fault s.faults then (err driver, tick s) else (ok tt, tick s)

unfoldable pub create_table : Exec Schema (Unit {0})
create_table s =
    if fault s.faults then (err driver, tick s) else (ok tt, record (tick s) { has_table = true })

abbrev pub is_version : String → String → Bool
is_version name v = v == name

unfoldable pub count_version : String → Exec Schema Bool
count_version name s =
    if fault s.faults then (err driver, tick s) else (ok (any (is_version name) s.versions), tick s)

-- COMMIT: the script and its version stand together.
unfoldable pub commit : String → String → Exec Schema (Unit {0})
commit name body s =
    if fault s.faults
    then (err driver, tick s)
    else (ok tt, record (tick s) { versions = s.versions ++ name ∷ []; ran = s.ran ++ body ∷ [] })

abbrev pub lift : {A : Type 0} → Result A → Exec Schema A
lift r s = (r, s)

-- The names of the scripts, sorted, given `strings.HasSuffix`.
unfoldable pub names_of : (String → String → Bool) → List Entry → List String
names_of has_suffix entries =
    sort_by (λ a b. is_le (compare a b))
      (map (λ e. e.name) (select (λ e. not e.is_dir && has_suffix e.name ".sql") entries))

module _ (read_file : String → Result String) where
  -- A script that is not recorded yet, in a transaction with its version.
  unfoldable pub apply : String → Exec Schema (Unit {0})
  unfolding statement commit
  apply name = do
    body ← lift (read_file name)
    statement
    wrapping "migrate" statement
    statement
    commit name body

  -- One round of the loop.
  unfoldable pub migrate_one : String → Exec Schema (Unit {0})
  unfolding count_version apply
  migrate_one name = do exists ← count_version name; if exists then pure tt else apply name

  -- The loop over the names.
  unfoldable pub migrate_all : List String → Exec Schema (Unit {0})
  unfolding migrate_one
  migrate_all [] = pure tt
  migrate_all (name ∷ names) = do migrate_one name; migrate_all names

  -- `Migrate`, of the entries that `ReadDir` returns.
  unfoldable pub migrate : (String → String → Bool) → Result (List Entry) → Exec Schema (Unit {0})
  unfolding create_table names_of migrate_all
  migrate has_suffix entries = do
    create_table
    found ← lift entries
    migrate_all (names_of has_suffix found)

-- ===== src/Tests/Drivers.antt =====
-- The Postgres store where texts are ordered by their bytes, and a migration of MySQL that fails
-- half-way through a script.
use signalwatch.Base.{String, Bool, true, false, refl, ◌≡◌, List, [], ◌∷◌, ◌==◌, if◌then◌else◌}
use signalwatch.Base.Lists.{any, select, sort_by}
use signalwatch.Base.Result.{Result, ok}
use signalwatch.Store.Migrate.{Schema, Entry, names_of}
use signalwatch.Store.Mysql.Migrate.{Strings, migrate}
use signalwatch.Store.Mysql.Outcome.{Outcome, mysql_migration_trail}
use Prim.Native.String.{compare}
use text.Mathlib.Text.{is_le}
use signalwatch.Store.Postgres.Refines.Stores.{
  RulesRefine, SubscribersRefine, SubscriptionsRefine, IncidentsRefine, NotificationsRefine,
  StatesRefine, TokensRefine, postgres_refines_sqlite,
}

-- The collation "C".
abbrev bytewise : String → String → Bool
bytewise a b = is_le (compare a b)

postgres_refines_sqlite_example :
    RulesRefine bytewise
    × SubscribersRefine bytewise
    × SubscriptionsRefine bytewise
    × IncidentsRefine
    × NotificationsRefine
    × StatesRefine
    × TokensRefine
postgres_refines_sqlite_example = postgres_refines_sqlite bytewise (λ a b. refl)

-- The script "a;b" has the statements "a" and "b".
abbrev strings : Strings
strings = record {
  trim_space = λ s. s;
  split = λ s sep. if s == "a;b" then "a" ∷ "b" ∷ [] else s ∷ [];
  has_prefix = λ s prefix. false;
  has_suffix = λ s suffix. true;
}

abbrev script : String → Result String
script name = ok "a;b"

abbrev one_script : List Entry
one_script = record { name = "0001.sql"; is_dir = false } ∷ []

-- The second statement of the script fails.
abbrev unlucky : Schema
unlucky = record {
  has_table = false;
  versions = [];
  ran = [];
  faults = false ∷ false ∷ false ∷ true ∷ [];
}

mysql_migration_trail_example :
    Outcome strings script
      (names_of strings.has_suffix one_script)
      unlucky
      (migrate strings script (ok one_script) unlucky)
mysql_migration_trail_example = mysql_migration_trail strings script one_script unlucky

-- The next run executes the statement "a" again.
runs_again :
    let (r, s) = migrate strings script (ok one_script) unlucky in
    (migrate strings script (ok one_script) s).1.ran ≡ "a" ∷ "a" ∷ "b" ∷ []
unfolding migrate sort_by select any
runs_again = refl

-- ===== src/Store/Rules.antt =====
-- ruleRepo of internal/store/sqlite/sqlite.go. The column of the condition holds the condition
-- that `MarshalCondition` encodes and `UnmarshalCondition` decodes.
use signalwatch.Base.{
  Bool, not, ◌&&◌, String, ◌==◌, List, [], ◌∷◌, ◌++◌, Option, none, some, map, if◌then◌else◌,
}
use Prim.Native.String.{compare}
use text.Mathlib.Text.{is_le}
use signalwatch.Base.Lists.{find, any, select, update_where, sort_by}
use signalwatch.Base.Result.{Exec, raise, panic}
use signalwatch.Base.Time.{Time, is_zero, unix_milli, of_unix_milli}
use signalwatch.Rule.Condition.{Condition}
use signalwatch.Rule.Model.{Rule}
use signalwatch.Store.Db.{Db, RuleRow, query, exec, exec_checked}

abbrev pub has_id : String → RuleRow → Bool
has_id id r = r.id == id

-- `scanRule`.
unfoldable pub of_row : RuleRow → Rule
of_row r = record {
  id = r.id;
  name = r.name;
  description = r.description;
  enabled = r.enabled;
  severity = r.severity;
  labels = r.labels;
  input_ref = r.input_ref;
  condition = some r.condition;
  schedule = r.schedule_ns;
  created_at = of_unix_milli r.created_at;
  updated_at = of_unix_milli r.updated_at;
}

unfoldable pub created_row : Time → Rule → Condition → RuleRow
created_row now x c = record {
  id = x.id;
  name = x.name;
  description = x.description;
  enabled = x.enabled;
  severity = x.severity;
  labels = x.labels;
  input_ref = x.input_ref;
  condition = c;
  schedule_ns = x.schedule;
  created_at = unix_milli (if is_zero x.created_at then now else x.created_at);
  updated_at = unix_milli now;
}

-- `Create`. A rule with no condition panics at `x.Condition.MarshalCondition()`. That call may also
-- return an error, for a number that is not finite: the write then fails before its statement with
-- nothing changed, and a fault of the statement stands for this too.
unfoldable pub create : Time → Rule → Exec Db (Unit {0})
unfolding created_row
create now x = elim x.condition [
  | none ↦ raise panic
  | some c ↦
      exec_checked (λ db. not (any (has_id x.id) db.rules))
        (λ db. record db { rules = db.rules ++ created_row now x c ∷ [] })
]

unfoldable pub updated_row : Time → Rule → Condition → RuleRow → RuleRow
updated_row now x c r = record r {
  name = x.name;
  description = x.description;
  enabled = x.enabled;
  severity = x.severity;
  labels = x.labels;
  input_ref = x.input_ref;
  condition = c;
  schedule_ns = x.schedule;
  updated_at = unix_milli now;
}

-- `Update`: a rule that is not there changes nothing. A fault stands for an error of
-- `MarshalCondition` too.
unfoldable pub update : Time → Rule → Exec Db (Unit {0})
unfolding updated_row
update now x = elim x.condition [
  | none ↦ raise panic
  | some c ↦
      exec (λ db. record db { rules = update_where (has_id x.id) (updated_row now x c) db.rules })
]

-- `Delete`.
unfoldable pub delete : String → Exec Db (Unit {0})
delete id = exec (λ db. record db { rules = select (λ r. not (has_id id r)) db.rules })

abbrev pub found : Option RuleRow → Option Rule
found none = none
found (some r) = some (of_row r)

-- `Get`: nil where there is no row.
unfoldable pub get : String → Exec Db (Option Rule)
get id = query (λ db. found (find (has_id id) db.rules))

-- `ListByInput`.
unfoldable pub list_by_input : String → Exec Db (List Rule)
list_by_input ref =
    query (λ db. map of_row (select (λ r. r.input_ref == ref && r.enabled) db.rules))

abbrev pub by_name : RuleRow → RuleRow → Bool
by_name a b = is_le (compare a.name b.name)

-- `List`: ORDER BY name. Texts are compared code point by code point, which is the order of bytes.
unfoldable pub list : Exec Db (List Rule)
list = query (λ db. map of_row (sort_by by_name db.rules))

-- ===== src/Store/Postgres/LiveStates.antt =====
-- liveStateRepo of internal/store/postgres/postgres.go.
use signalwatch.Base.{Bool, String, ◌==◌, List, Option, none, some, map}
use signalwatch.Base.Lists.{find, upsert_by}
use signalwatch.Base.Result.{Exec}
use signalwatch.Rule.State.{LiveState}
use signalwatch.Store.LiveStates.{ms_column, of_ms_column}
use signalwatch.Store.Postgres.Db.{Db, LiveStateRow, query, exec}
use signalwatch.Store.Db.{nullable, text_of}

unfoldable pub to_row : LiveState → LiveStateRow
to_row s = record {
  rule_id = s.rule_id;
  state = s.state;
  triggered_at = ms_column s.triggered_at;
  last_eval_at = ms_column s.last_eval_at;
  last_value = nullable s.last_value;
  last_error = nullable s.last_error;
  incident_id = nullable s.incident_id;
}

unfoldable pub of_row : LiveStateRow → LiveState
of_row r = record {
  rule_id = r.rule_id;
  state = r.state;
  triggered_at = of_ms_column r.triggered_at;
  last_eval_at = of_ms_column r.last_eval_at;
  last_value = text_of r.last_value;
  last_error = text_of r.last_error;
  incident_id = text_of r.incident_id;
}

abbrev pub has_rule : String → LiveStateRow → Bool
has_rule id r = r.rule_id == id

abbrev pub found : Option LiveStateRow → Option LiveState
found none = none
found (some r) = some (of_row r)

-- `Get`: nil where there is no row.
unfoldable pub get : String → Exec Db (Option LiveState)
get id = query (λ db. found (find (has_rule id) db.live_states))

-- `Upsert`: INSERT … ON CONFLICT(rule_id) DO UPDATE.
unfoldable pub upsert : LiveState → Exec Db (Unit {0})
upsert s =
    exec
      (λ db. record db { live_states = upsert_by (has_rule s.rule_id) (to_row s) db.live_states })

-- `List`.
unfoldable pub list : Exec Db (List LiveState)
list = query (λ db. map of_row db.live_states)

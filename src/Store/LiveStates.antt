-- ===== src/Store/LiveStates.antt =====
-- liveStateRepo of internal/store/sqlite/sqlite.go.
pub mod RoundTrip
use signalwatch.Base.{
  Bool, String, ◌==◌, List, [], ◌∷◌, ◌++◌, Option, none, some, map, if◌then◌else◌,
}
use signalwatch.Base.Int.{ℤ, pos, ltb_ℤ}
use signalwatch.Base.Lists.{find, upsert_by}
use signalwatch.Base.Result.{Exec}
use signalwatch.Base.Time.{Time, zero_time, is_zero, unix_milli, of_unix_milli}
use signalwatch.Rule.State.{LiveState}
use signalwatch.Store.Db.{Db, LiveStateRow, query, exec, nullable, text_of}

-- The millisecond column of an instant: 0 for the zero time.
unfoldable pub ms_column : Time → ℤ
ms_column t = if is_zero t then pos 0 else unix_milli t

-- The instant of a millisecond column: the zero time unless the column is positive.
unfoldable pub of_ms_column : ℤ → Time
of_ms_column ms = if ltb_ℤ (pos 0) ms then of_unix_milli ms else zero_time

unfoldable pub to_row : LiveState → LiveStateRow
to_row s = record {
  rule_id = s.rule_id;
  state = s.state;
  triggered_at = ms_column s.triggered_at;
  last_eval_at = ms_column s.last_eval_at;
  last_value = s.last_value;
  last_error = s.last_error;
  incident_id = nullable s.incident_id;
}

unfoldable pub of_row : LiveStateRow → LiveState
of_row r = record {
  rule_id = r.rule_id;
  state = r.state;
  triggered_at = of_ms_column r.triggered_at;
  last_eval_at = of_ms_column r.last_eval_at;
  last_value = r.last_value;
  last_error = r.last_error;
  incident_id = text_of r.incident_id;
}

abbrev pub has_rule : String → LiveStateRow → Bool
has_rule id r = r.rule_id == id

abbrev pub found : Option LiveStateRow → Option LiveState
found none = none
found (some r) = some (of_row r)

-- `Get`: nil where there is no row.
unfoldable pub get : String → Exec Db (Option LiveState)
get id = query (λ db. found (find (has_rule id) db.live_states))

-- `Upsert`: INSERT … ON CONFLICT(rule_id) DO UPDATE.
unfoldable pub upsert : LiveState → Exec Db (Unit {0})
upsert s =
    exec
      (λ db. record db { live_states = upsert_by (has_rule s.rule_id) (to_row s) db.live_states })

-- `List`.
unfoldable pub list : Exec Db (List LiveState)
list = query (λ db. map of_row db.live_states)

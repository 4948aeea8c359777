-- ===== src/Store/Postgres/SubStates.antt =====
-- incidentSubStateRepo of internal/store/postgres/postgres.go.
use signalwatch.Base.{Bool, ◌&&◌, String, ◌==◌, List, Option, none, some, map}
use signalwatch.Base.Lists.{find, select, upsert_by}
use signalwatch.Base.Result.{Exec}
use signalwatch.Subscriber.{IncidentSubState}
use signalwatch.Store.Postgres.Db.{Db, query, exec}
use signalwatch.Store.Db.{SubStateRow}
use signalwatch.Store.LiveStates.{ms_column, of_ms_column}

unfoldable pub to_row : IncidentSubState → SubStateRow
to_row s = record {
  incident_id = s.incident_id;
  subscription_id = s.subscription_id;
  last_notified_at = ms_column s.last_notified_at;
  notify_count = s.notify_count;
  resolution_sent = s.resolution_sent;
}

unfoldable pub of_row : SubStateRow → IncidentSubState
of_row r = record {
  incident_id = r.incident_id;
  subscription_id = r.subscription_id;
  last_notified_at = of_ms_column r.last_notified_at;
  notify_count = r.notify_count;
  resolution_sent = r.resolution_sent;
}

abbrev pub has_key : String → String → SubStateRow → Bool
has_key incident subscription r = r.incident_id == incident && r.subscription_id == subscription

abbrev pub found : Option SubStateRow → Option IncidentSubState
found none = none
found (some r) = some (of_row r)

-- `Get`: nil where there is no row.
unfoldable pub get : String → String → Exec Db (Option IncidentSubState)
get incident subscription = query (λ db. found (find (has_key incident subscription) db.sub_states))

-- `Upsert`: INSERT … ON CONFLICT(incident_id, subscription_id) DO UPDATE.
unfoldable pub upsert : IncidentSubState → Exec Db (Unit {0})
upsert s = exec λ db. record db {
  sub_states = upsert_by (has_key s.incident_id s.subscription_id) (to_row s) db.sub_states;
}

-- `ListForIncident`.
unfoldable pub list_for_incident : String → Exec Db (List IncidentSubState)
list_for_incident incident =
    query (λ db. map of_row (select (λ r. r.incident_id == incident) db.sub_states))

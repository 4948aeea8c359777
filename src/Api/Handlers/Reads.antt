-- ===== src/Api/Handlers/Reads.antt =====
-- The read-only handlers of internal/api/api.go: incidents, their export, notifications, states.

pub mod Bounds
use signalwatch.Base.{
  not, ◌&&◌, String, ◌==◌, List, [], ◌∷◌, map, Option, none, some, if◌then◌else◌,
}
use signalwatch.Base.Int.{ℤ, pos}
use signalwatch.Base.Lists.{select}
use signalwatch.Base.Result.{Exec, error, catching}
use signalwatch.Base.Time.{Time, is_zero, before}
use signalwatch.Subscriber.{Incident, Notification}
use signalwatch.Rule.State.{LiveState}
use signalwatch.Store.Db.{Db}
use signalwatch.Store.Incidents
use signalwatch.Store.Notifications
use signalwatch.Store.LiveStates
use signalwatch.Api.Query.{Parsers, parse_limit, parse_since}
use signalwatch.Api.Reply.{Reply, sent, failed, Handling, answer, given, calling}

-- What an export writes: the incidents as JSON, or the rows of a CSV file.
pub data Export : Type 0 where
  json : List Incident → Export
  csv : List (List String) → Export

pub record IncidentView : Type 0 where
  pub incident : Incident
  pub notifications : List Notification

-- The incidents of a rule, or of all rules where the text is empty.
abbrev pub fetch : String → ℤ → Exec Db (List Incident)
fetch rule limit =
    if not (rule == "") then Incidents.list_for_rule rule limit else Incidents.list limit

-- The filter of an export.
abbrev pub since_filter : Time → List Incident → List Incident
since_filter since rows =
    if not (is_zero since) then select (λ inc. not (before inc.triggered_at since)) rows else rows

module _ (parsers : Parsers) where
  open parsers use {trim_space, to_lower, format_rfc3339}

  -- `listIncidents`, of the parameters `rule_id` and `limit`.
  unfoldable pub list_incidents : String → String → Handling Db (List Incident)
  list_incidents rule limit =
      calling 500 (fetch (trim_space rule) (parse_limit parsers limit))
        λ rows. answer (sent 200 rows)

  unfoldable pub csv_row : Incident → List String
  csv_row inc =
      inc.id
      ∷ inc.rule_id
      ∷ format_rfc3339 inc.triggered_at
      ∷ (if not (is_zero inc.resolved_at) then format_rfc3339 inc.resolved_at else "")
      ∷ inc.last_value
      ∷ []

  unfoldable pub csv_rows : List Incident → List (List String)
  unfolding csv_row
  csv_rows rows =
      ("id" ∷ "rule_id" ∷ "triggered_at" ∷ "resolved_at" ∷ "last_value" ∷ []) ∷ map csv_row rows

  unfoldable pub written : String → List Incident → Export
  unfolding csv_rows
  written format rows = if format == "json" then json rows else csv (csv_rows rows)

  abbrev pub format_of : String → String
  format_of raw = let f = to_lower (trim_space raw) in if f == "" then "json" else f

  -- `exportIncidents` once the format is known.
  unfoldable pub export_as : String → String → String → Time → Handling Db Export
  unfolding written
  export_as format since rule now = given 400 (parse_since parsers since now) λ since.
      calling 500 (fetch (trim_space rule) (pos 0))
        λ rows. answer (sent 200 (written format (since_filter since rows)))

  -- `exportIncidents`, of the parameters `format`, `since` and `rule_id`.
  unfoldable pub export_incidents : String → String → String → Time → Handling Db Export
  unfolding export_as
  export_incidents format since rule now =
      let f = format_of format in
      if not (f == "json") && not (f == "csv")
      then answer (failed 400 (error "format must be json or csv"))
      else export_as f since rule now

  -- `listNotifications`.
  unfoldable pub list_notifications : String → Handling Db (List Notification)
  list_notifications limit =
      calling 500 (Notifications.list (parse_limit parsers limit)) λ rows. answer (sent 200 rows)

-- The incident with its notifications; an error of the second query leaves them out.
abbrev pub incident_view : String → Option Incident → Handling Db IncidentView
incident_view id none db = (failed 404 (error "incident not found"), db)
incident_view id (some inc) db =
    let (notes, db') = catching (λ _. []) (Notifications.list_for_incident id) db in
    (sent 200 (record { incident = inc; notifications = notes }), db')

-- `getIncident`.
unfoldable pub get_incident : String → Handling Db IncidentView
get_incident id = calling 500 (Incidents.get id) λ found. incident_view id found

-- `listStates`.
unfoldable pub list_states : Handling Db (List LiveState)
list_states = calling 500 LiveStates.list λ rows. answer (sent 200 rows)

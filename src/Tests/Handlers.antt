-- ===== src/Tests/Handlers.antt =====
-- Requests at the handlers.
use signalwatch.Base.{true, false, String, ◌≡◌, ◌↔◌, ◌⊎◌, ◌≤◌, refl, [], ◌∷◌, none, some}
use signalwatch.Base.Int.{pos, pos_part}
use signalwatch.Base.Lists.{Elem, any, find, select, sort_by, insert_by}
use signalwatch.Base.Result.{Result, ok, err, error}
use signalwatch.Base.Time.{Duration, is_zero, zero_time}
use signalwatch.Subscriber.{Subscriber, validate}
use signalwatch.Auth.Token.{admin, read, validate_scope}
use signalwatch.Rule.Condition.{
  Condition, Threshold, WindowAggregate, PatternMatch, SqlReturnsRows, Expression,
}
use signalwatch.Rule.Model.{info}
use signalwatch.Rule.Wire.{Json}
use signalwatch.Store.Db.{Db, IncidentRow, exec, exec_checked, query}
use signalwatch.Store.Subscriptions
use signalwatch.Store.Incidents
use signalwatch.Store.Tokens
use signalwatch.Api.Gate.{bearer_token, gate}
use signalwatch.Api.Access.{passes, row_of}
use signalwatch.Api.Query.{Parsers, clamp, parse_limit, parse_since}
use signalwatch.Api.Reply.{sent, bare, status}
use signalwatch.Api.Handlers.Subscriptions.{
  Seconds, Payload, to_payload, to_subscription, create_valid, create_subscription,
  get_subscription, update_subscription, delete_subscription,
}
use signalwatch.Api.Handlers.Subscriptions.Laws.{created_reads_back}
use signalwatch.Api.Handlers.Subscribers.{create_subscriber, update_subscriber, delete_subscriber}
use signalwatch.Api.Handlers.Tokens.{
  Draw, IssueRequest, Issued, issue_token, store_token, generate_token, expiry, validate_request,
  new_token, to_view, revoke_token,
}
use signalwatch.Api.Handlers.Tokens.Access.{issued_token_opens}
use signalwatch.Api.Handlers.Tokens.Revoked.{revocation_exact, HasOtherId}
use signalwatch.Api.Handlers.Reads.{json, list_incidents, export_incidents, export_as, written}
use signalwatch.Api.Handlers.Reads.Bounds.{
  limit_of, incidents_bounded, exports_bounded, IsPage, IsExport,
}
use signalwatch.Api.Handlers.Failures.{refused_writes_unchanged, Unchanged}
use signalwatch.Api.Handlers.Rules
use signalwatch.Api.Handlers.Rules.{validate_rule, create_rule}
use signalwatch.Api.Handlers.Rules.Laws.{validate_foretells_create}
use signalwatch.Tests.Data.{empty_db, ann_row, hot_condition}
use signalwatch.Tests.Access.{texts, with_tokens, token_db}
use signalwatch.Tests.Engines.{lib, blank}

-- Whole seconds.
abbrev seconds : Seconds
seconds = record { to_duration = λ x. pos x; of_duration = λ d. pos_part d }

abbrev wanted : Payload
wanted = record {
  id = "";
  subscriber_id = "ann";
  rule_id = "hot";
  label_selector = [];
  dwell_sec = 5;
  repeat_interval_sec = 0;
  notify_on_resolve = true;
  one_shot = false;
  channel_filter = [];
}

abbrev made : Payload
made = record wanted { id = "s1" }

abbrev before : Db
before = record empty_db { subscribers = ann_row ∷ [] }

creation_answers : (create_subscription seconds (pos 7) "s1" (ok wanted) before).0 ≡ sent 201 made
unfolding create_subscription create_valid to_subscription validate Subscriptions.create
    exec_checked any to_payload
creation_answers = refl

created_reads_back_example :
    get_subscription seconds "s1" (create_subscription seconds (pos 7) "s1" (ok wanted) before).1
    ≡ (sent 200 made, (create_subscription seconds (pos 7) "s1" (ok wanted) before).1)
created_reads_back_example =
    created_reads_back seconds (pos 7) "s1" wanted 201 made before refl creation_answers

-- Durations that are not read: none is asked for.
abbrev no_duration : String → Result Duration
no_duration s = err (error "time: invalid duration")

abbrev draw : Draw
draw = record { start = pos 1; now = pos 2; stored = pos 2; id = "t2"; random = ok "abc" }

abbrev asked : IssueRequest
asked = record { name = "reader"; scopes = read ∷ []; expires_in = "" }

abbrev issued : Issued
issued = record {
  token = record {
    id = "t2";
    name = "reader";
    scopes = read ∷ [];
    created_at = pos 2;
    expires_at = none;
    last_used_at = none;
    revoked = false;
  };
  secret = "sw_abc";
}

issue_answers :
    (issue_token texts.hash_token no_duration draw (ok asked) token_db).0 ≡ sent 201 issued
unfolding issue_token validate_request expiry generate_token store_token new_token Tokens.create
    exec_checked any to_view validate_scope
issue_answers = refl

issued_token_opens_example :
    (passes
        (gate texts with_tokens read
          (pos 9)
          "Bearer sw_abc"
          (issue_token texts.hash_token no_duration draw (ok asked) token_db).1).0
      ≡ true)
    ↔ (Elem admin (read ∷ []) ⊎ Elem read (read ∷ []))
unfolding bearer_token
issued_token_opens_example =
    issued_token_opens texts no_duration with_tokens draw asked 201 issued read (pos 9)
      "Bearer sw_abc" token_db refl refl issue_answers (λ e. cc) refl tt

revoke_answers : (revoke_token "t1" token_db).0 ≡ bare 204
unfolding revoke_token Tokens.get Tokens.revoke query exec find
revoke_answers = refl

revocation_exact_example :
    (passes (gate texts with_tokens read (pos 9) "Bearer sw_boss" (revoke_token "t1" token_db).1).0
      ≡ true)
    ↔ ((passes (gate texts with_tokens read (pos 9) "Bearer sw_boss" token_db).0 ≡ true)
        × HasOtherId "t1" (row_of texts "sw_boss" token_db))
unfolding bearer_token
revocation_exact_example =
    revocation_exact texts with_tokens read (pos 9) "Bearer sw_boss" "sw_boss" "t1" token_db refl
      refl (λ e. cc) refl revoke_answers

-- No text is a number, an instant or a duration.
abbrev parsers : Parsers
parsers = record {
  trim_space = λ s. s;
  to_lower = λ s. s;
  atoi = λ s. none;
  parse_rfc3339 = λ s. none;
  parse_duration = no_duration;
  format_rfc3339 = λ t. "";
}

abbrev open_row : IncidentRow
open_row = record {
  id = "i1";
  rule_id = "hot";
  triggered_at = pos 4;
  resolved_at = none;
  last_value = "9";
}

abbrev incident_db : Db
incident_db = record empty_db { incidents = open_row ∷ [] }

incidents_bounded_example :
    let n = limit_of parsers "many" in
    (1 ≤ n) × (n ≤ 1000) × IsPage "hot" n (Incidents.of_row open_row ∷ [])
incidents_bounded_example =
    incidents_bounded parsers "hot" "many" 200 (Incidents.of_row open_row ∷ []) incident_db (
      unfold list_incidents parse_limit Incidents.list_for_rule query Incidents.page select sort_by
        insert_by clamp in
      refl)

exports_bounded_example :
    IsExport parsers "json" "hot" zero_time (json (Incidents.of_row open_row ∷ []))
unfolding zero_time
exports_bounded_example =
    exports_bounded parsers "" "" "hot" (pos 9) zero_time 200
      (json (Incidents.of_row open_row ∷ [])) incident_db (unfold parse_since in refl)
      (unfold export_incidents export_as parse_since Incidents.list_for_rule query Incidents.page
          select sort_by insert_by written is_zero in
        refl)

refused_writes_unchanged_example :
    let nobody : Result Subscriber = err (error "unexpected end of JSON input") in
    let nothing : Result IssueRequest = err (error "unexpected end of JSON input") in
    Unchanged before (create_subscriber (pos 7) "s1" nobody before)
    × Unchanged before (update_subscriber (pos 7) "ann" nobody before)
    × Unchanged before (delete_subscriber "ann" before)
    × Unchanged before (create_subscription seconds (pos 7) "s1" (ok made) before)
    × Unchanged before (update_subscription seconds (pos 7) "s1" "ann" (ok made) before)
    × Unchanged before (delete_subscription "ann" before)
    × Unchanged before (issue_token texts.hash_token no_duration draw nothing before)
    × Unchanged before (revoke_token "ann" before)
refused_writes_unchanged_example =
    refused_writes_unchanged seconds texts.hash_token no_duration (pos 7) draw "s1" "ann"
      (err (error "unexpected end of JSON input")) (ok made)
      (err (error "unexpected end of JSON input")) before

-- A text is its type and its condition.
abbrev Text : Type 0
Text = String × Condition

abbrev threshold_in : Condition → Result Threshold
threshold_in (Condition.threshold t) = ok t
threshold_in _ = err (error "json: cannot unmarshal")

abbrev window_aggregate_in : Condition → Result WindowAggregate
window_aggregate_in (Condition.window_aggregate w) = ok w
window_aggregate_in _ = err (error "json: cannot unmarshal")

abbrev pattern_match_in : Condition → Result PatternMatch
pattern_match_in (Condition.pattern_match p) = ok p
pattern_match_in _ = err (error "json: cannot unmarshal")

abbrev sql_returns_rows_in : Condition → Result SqlReturnsRows
sql_returns_rows_in (Condition.sql_returns_rows s) = ok s
sql_returns_rows_in _ = err (error "json: cannot unmarshal")

abbrev expression_in : Condition → Result Expression
expression_in (Condition.expression e) = ok e
expression_in _ = err (error "json: cannot unmarshal")

abbrev texts_json : Json Text
texts_json = record {
  marshal = λ typ c. ok (typ, c);
  unmarshal_wrapper = λ raw. ok (raw.0, raw);
  unmarshal_threshold = λ raw. threshold_in raw.1;
  unmarshal_window_aggregate = λ raw. window_aggregate_in raw.1;
  unmarshal_pattern_match = λ raw. pattern_match_in raw.1;
  unmarshal_sql_returns_rows = λ raw. sql_returns_rows_in raw.1;
  unmarshal_expression = λ raw. expression_in raw.1;
}

abbrev hot_payload : Rules.Payload Text
hot_payload = record {
  id = "";
  name = "Too hot";
  description = "";
  enabled = true;
  severity = info;
  labels = [];
  input_ref = "events";
  condition = some ("threshold", hot_condition);
  schedule_sec = 0;
}

validate_foretells_create_example :
    let checked = status (validate_rule texts_json seconds lib "r1" (ok hot_payload) blank).0 in
    let made = status (create_rule texts_json seconds lib (pos 3) "r1" (ok hot_payload) blank).0 in
    (checked ≡ 200 → made ≡ 201) × (true ≡ true → made ≡ 201 → checked ≡ 200)
unfolding any
validate_foretells_create_example =
    validate_foretells_create texts_json seconds lib (pos 3) "r1" hot_payload blank refl refl

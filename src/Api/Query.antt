-- ===== src/Api/Query.antt =====
-- What the handlers read from a request's texts: the functions of Go's standard library they
-- call, and `parseLimit` and `parseSince` of internal/api/api.go.
use signalwatch.Base.{String, ◌==◌, Option, none, some, if◌then◌else◌}
use signalwatch.Base.Int.{ℤ, pos, leb_ℤ, ltb_ℤ}
use signalwatch.Base.Result.{Result, ok, err, error}
use signalwatch.Base.Time.{Time, Duration, zero_time, add, negate}

-- `strings.TrimSpace`, `strings.ToLower`, `strconv.Atoi`, `time.Parse(time.RFC3339, s)`,
-- `time.ParseDuration`, and `t.UTC().Format(time.RFC3339)`.
pub record Parsers : Type 0 where
  pub trim_space : String → String
  pub to_lower : String → String
  pub atoi : String → Option ℤ
  pub parse_rfc3339 : String → Option Time
  pub parse_duration : String → Result Duration
  pub format_rfc3339 : Time → String

unfoldable pub clamp : Option ℤ → ℤ
clamp none = pos 100
clamp (some n) = if leb_ℤ n (pos 0) then pos 100 else if ltb_ℤ (pos 1000) n then pos 1000 else n

unfoldable pub since_duration : Time → Result Duration → Result Time
since_duration now (err e) = err (error "since: expected RFC3339 or Go duration (e.g. 168h)")
since_duration now (ok d) =
    if ltb_ℤ d (pos 0)
    then err (error "since: duration must be non-negative")
    else ok (add now (negate d))

module _ (parsers : Parsers) where
  open parsers use {trim_space, atoi, parse_rfc3339, parse_duration}

  -- `parseLimit`, of the text of the parameter.
  unfoldable pub parse_limit : String → ℤ
  unfolding clamp
  parse_limit q = if q == "" then pos 100 else clamp (atoi q)

  -- A text that is an instant, or else a duration.
  abbrev since_text : Time → String → Option Time → Result Time
  since_text now s (some t) = ok t
  since_text now s none = since_duration now (parse_duration s)

  -- `parseSince`.
  unfoldable pub parse_since : String → Time → Result Time
  unfolding since_duration
  parse_since raw now =
      let s = trim_space raw in if s == "" then ok zero_time else since_text now s (parse_rfc3339 s)

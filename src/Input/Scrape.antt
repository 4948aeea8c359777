-- ===== src/Input/Scrape.antt =====
-- internal/input/scrape/scrape.go. The texts of its errors are not told apart.
use signalwatch.Base.{
  ℕ, Bool, not, String, ◌==◌, ◌/◌, List, [], ◌∷◌, Option, none, some, eqb, if◌then◌else◌,
}
use signalwatch.Base.Int.{pos, leb_ℤ}
use signalwatch.Base.Result.{Result, ok, err, error}
use signalwatch.Base.Time.{Time, Duration}
use signalwatch.Eval.Window.{Fields, Value}
use signalwatch.Eval.Conditions.{field_of}
use signalwatch.Input.Message.{EvaluationRecord, Json, object, no_object}

-- `Target`.
pub record Target : Type 0 where
  pub name : String
  pub url : String
  pub interval : Duration
  pub field : String

-- The interval that `Start` runs a target with.
unfoldable pub interval_of : Target → Duration
interval_of t = if leb_ℤ t.interval (pos 0) then pos 30000000000 else t.interval

-- `http.Response`: its status, and its body as far as it is read.
pub record Response : Type 0 where
  pub status : ℕ
  pub body : Result String

abbrev value_of : Target → Option Value → Result (Option Fields)
value_of t none = err (error "scrape: field missing")
value_of t (some v) = ok (some (("value", v) ∷ ("source", Value.string t.name) ∷ []))

-- What one turn of `runTarget` meets: the context is done, or a tick, with what the client
-- returns, the time, and whether the sink takes the record before the context is done.
pub data Turn : Type 0 where
  done : Turn
  tick : Result Response → Time → Bool → Turn

module _ (unmarshal : String → Result Json) where
  abbrev extract : Target → Result Json → Result (Option Fields)
  extract t (err e) = err e
  extract t (ok no_object) = err (error "json: cannot unmarshal into a map")
  extract t (ok (object fs)) = value_of t (field_of (if t.field == "" then "value" else t.field) fs)

  abbrev read_body : Target → Result String → Result (Option Fields)
  read_body t (err e) = err e
  read_body t (ok body) = extract t (unmarshal body)

  -- `scrape`, of what the client returns.
  unfoldable pub scrape : Target → Result Response → Result (Option Fields)
  scrape t (err e) = err e
  scrape t (ok resp) =
      if not (eqb (resp.status / 100) 2)
      then err (error "scrape: status")
      else read_body t resp.body

  -- The loop of `runTarget`: the records that the sink gets.
  unfoldable pub run_target : Target → List Turn → List EvaluationRecord
  unfolding scrape
  run_target t [] = []
  run_target t (done ∷ turns) = []
  run_target t (tick response now takes ∷ turns) =
      let rest = run_target t turns in
      elim (scrape t response) [
        | err e ↦ rest
        | ok fields ↦
            if takes then record { input_ref = t.name; at = now; fields = fields } ∷ rest else []
      ]

-- ===== src/Store/Db.antt =====
-- The SQLite database of internal/store/sqlite: its tables as lists of rows, in the columns of
-- migrations/*.sql, and how a statement runs. A column of milliseconds is an integer; a column of
-- JSON holds the value that was encoded. A statement fails where the database driver does, which
-- `faults` says for the statements to come, or where it breaks a primary key or a reference.
use signalwatch.Base.{
  ℕ, Bool, true, false, String, ◌==◌, eq_iff, List, [], ◌∷◌, ◌≡◌, refl, subst, inl, inr, arith,
  Option, none, some, if◌then◌else◌, Bool-cases,
}
use signalwatch.Base.Int.{ℤ}
use signalwatch.Base.Result.{ok, err, driver, Exec, err_not_ok}
use signalwatch.Subscriber.{Labels, ChannelBinding, NotificationKind}
use signalwatch.Rule.State.{State}
use signalwatch.Rule.Condition.{Condition}
use signalwatch.Rule.Model.{Severity}
use signalwatch.Auth.Token.{Scope}

pub record RuleRow : Type 0 where
  pub id : String
  pub name : String
  pub description : String
  pub enabled : Bool
  pub severity : Severity
  pub labels : Labels
  pub input_ref : String
  pub condition : Condition
  pub schedule_ns : ℤ
  pub created_at : ℤ
  pub updated_at : ℤ

pub record SubscriberRow : Type 0 where
  pub id : String
  pub name : String
  pub channels : List ChannelBinding
  pub created_at : ℤ
  pub updated_at : ℤ

pub record SubscriptionRow : Type 0 where
  pub id : String
  pub subscriber_id : String
  pub rule_id : Option String
  pub label_selector : Labels
  pub dwell_ns : ℤ
  pub repeat_interval_ns : ℤ
  pub notify_on_resolve : Bool
  pub one_shot : Bool
  pub channel_filter : List String
  pub created_at : ℤ
  pub updated_at : ℤ

pub record IncidentRow : Type 0 where
  pub id : String
  pub rule_id : String
  pub triggered_at : ℤ
  pub resolved_at : Option ℤ
  pub last_value : String

pub record NotificationRow : Type 0 where
  pub id : String
  pub incident_id : String
  pub subscription_id : String
  pub subscriber_id : String
  pub channel : String
  pub address : String
  pub kind : NotificationKind
  pub sent_at : ℤ
  pub status : String
  pub failure : String

pub record LiveStateRow : Type 0 where
  pub rule_id : String
  pub state : State
  pub triggered_at : ℤ
  pub last_eval_at : ℤ
  pub last_value : String
  pub last_error : String
  pub incident_id : Option String

pub record SubStateRow : Type 0 where
  pub incident_id : String
  pub subscription_id : String
  pub last_notified_at : ℤ
  pub notify_count : ℕ
  pub resolution_sent : Bool

pub record TokenRow : Type 0 where
  pub id : String
  pub name : String
  pub token_hash : String
  pub scopes : List Scope
  pub created_at : ℤ
  pub expires_at : Option ℤ
  pub last_used_at : Option ℤ
  pub revoked : Bool

pub record Db : Type 0 where
  pub rules : List RuleRow
  pub subscribers : List SubscriberRow
  pub subscriptions : List SubscriptionRow
  pub incidents : List IncidentRow
  pub notifications : List NotificationRow
  pub live_states : List LiveStateRow
  pub sub_states : List SubStateRow
  pub api_tokens : List TokenRow
  pub faults : List Bool

-- Whether the next statement fails. Past the end of the list none does.
abbrev pub fault : List Bool → Bool
fault [] = false
fault (b ∷ bs) = b

abbrev pub later : List Bool → List Bool
later [] = []
later (b ∷ bs) = bs

abbrev pub tick : Db → Db
tick db = record db { faults = later db.faults }

-- A `SELECT`.
unfoldable pub query : {A : Type 0} → (Db → A) → Exec Db A
query f db = if fault db.faults then (err driver, tick db) else (ok (f db), tick db)

-- A statement that writes, or a transaction: it changes the tables, or fails and changes nothing.
unfoldable pub exec : (Db → Db) → Exec Db (Unit {0})
exec f db = if fault db.faults then (err driver, tick db) else (ok tt, f (tick db))

-- An `INSERT` under constraints: `accepts` is whether they hold.
unfoldable pub exec_checked : (Db → Bool) → (Db → Db) → Exec Db (Unit {0})
exec_checked accepts f db =
    if fault db.faults
    then (err driver, tick db)
    else if accepts db
    then (ok tt, f (tick db))
    else (err driver, tick db)

-- The driver fails at no statement to come.
abbrev pub IsQuiet : Db → Type 0
IsQuiet db = db.faults ≡ []

tick-quiet : (db : Db) → IsQuiet db → tick db ≡ db
tick-quiet db h = ground arith

pub query-quiet : {A : Type 0} (f : Db → A) (db : Db) → IsQuiet db → query f db ≡ (ok (f db), db)
unfolding query
query-quiet f db h = ground arith

pub exec-quiet : (f : Db → Db) (db : Db) → IsQuiet db → exec f db ≡ (ok tt, f db)
unfolding exec
exec-quiet f db h = rw (tick-quiet db h) (ground arith)

pub exec_checked-quiet :
    (accepts : Db → Bool) (f : Db → Db) (db : Db)
    → IsQuiet db
    → exec_checked accepts f db ≡ (if accepts db then (ok tt, f db) else (err driver, db))
unfolding exec_checked
exec_checked-quiet accepts f db h = rw (tick-quiet db h) (ground arith)

-- `nullable`: an empty text is stored as NULL.
abbrev pub nullable : String → Option String
nullable s = if s == "" then none else some s

-- The text of a column that may be NULL.
abbrev pub text_of : Option String → String
text_of none = ""
text_of (some s) = s

-- An `INSERT` that succeeds met its constraints.
pub exec_checked-ok :
    (accepts : Db → Bool) (f : Db → Db) (db : Db)
    → IsQuiet db
    → (exec_checked accepts f db).0 ≡ ok tt
    → (accepts db ≡ true) × (exec_checked accepts f db ≡ (ok tt, f db))
exec_checked-ok accepts f db quiet h = elim (Bool-cases (accepts db)) [
  | inl held ↦ (held, simp (exec_checked-quiet accepts f db quiet, held) refl)
  | inr broken ↦
      let run : exec_checked accepts f db ≡ (err driver, db) =
        simp (exec_checked-quiet accepts f db quiet, broken) refl in
      absurd (err_not_ok driver tt (subst (λ p. p.0 ≡ ok tt) run h))
]

-- A text survives its column.
pub text_of-nullable : (s : String) → text_of (nullable s) ≡ s
text_of-nullable s = ground (arith, eq_iff s "")

-- ===== src/Store/Postgres/Db.antt =====
-- The Postgres database of internal/store/postgres: the tables of SQLite, except that a text that
-- may be empty is a column that may be NULL, and how a statement runs. Rows that a query does not
-- order come in the order of insertion, as in the SQLite model, though Postgres promises no order.
-- The column incidents.last_value is always given a text, and so is a plain one.
-- A statement that Postgres refuses for one of its texts, such as one with a NUL character, is one that
-- fails.
use signalwatch.Base.{Bool, String, List, Option, if◌then◌else◌}
use signalwatch.Base.Int.{ℤ}
use signalwatch.Base.Result.{ok, err, driver, Exec}
use signalwatch.Subscriber.{NotificationKind}
use signalwatch.Rule.State.{State}
use signalwatch.Store.Db.{
  RuleRow, SubscriberRow, SubscriptionRow, IncidentRow, SubStateRow, TokenRow, fault, later,
}

pub record NotificationRow : Type 0 where
  pub id : String
  pub incident_id : String
  pub subscription_id : String
  pub subscriber_id : String
  pub channel : String
  pub address : String
  pub kind : NotificationKind
  pub sent_at : ℤ
  pub status : String
  pub failure : Option String

pub record LiveStateRow : Type 0 where
  pub rule_id : String
  pub state : State
  pub triggered_at : ℤ
  pub last_eval_at : ℤ
  pub last_value : Option String
  pub last_error : Option String
  pub incident_id : Option String

pub record Db : Type 0 where
  pub rules : List RuleRow
  pub subscribers : List SubscriberRow
  pub subscriptions : List SubscriptionRow
  pub incidents : List IncidentRow
  pub notifications : List NotificationRow
  pub live_states : List LiveStateRow
  pub sub_states : List SubStateRow
  pub api_tokens : List TokenRow
  pub faults : List Bool

abbrev pub tick : Db → Db
tick db = record db { faults = later db.faults }

-- A `SELECT`.
unfoldable pub query : {A : Type 0} → (Db → A) → Exec Db A
query f db = if fault db.faults then (err driver, tick db) else (ok (f db), tick db)

-- A statement that writes, or a transaction: it changes the tables, or fails and changes nothing.
unfoldable pub exec : (Db → Db) → Exec Db (Unit {0})
exec f db = if fault db.faults then (err driver, tick db) else (ok tt, f (tick db))

-- An `INSERT` under constraints: `accepts` is whether they hold.
unfoldable pub exec_checked : (Db → Bool) → (Db → Db) → Exec Db (Unit {0})
exec_checked accepts f db =
    if fault db.faults
    then (err driver, tick db)
    else if accepts db
    then (ok tt, f (tick db))
    else (err driver, tick db)

-- ===== src/Dispatcher/World.antt =====
-- The state that the dispatcher works on: the database, the ids minted so far, and every call of a
-- channel's `Send`. Tracing spans and log lines are left out.
use signalwatch.Base.{ℕ, Bool, String, List, Option}
use signalwatch.Base.Result.{Exec}
use signalwatch.Channel.{Payload, Sent}
use signalwatch.Store.Db.{Db}

pub record World : Type 0 where
  pub db : Db
  pub minted : ℕ
  pub outbox : List Sent

-- What the dispatcher is given: which channel names are configured, what a channel answers (by its
-- name, the payload and all that was sent before), and the source of fresh ids.
pub record Env : Type 0 where
  pub configured : String → Bool
  pub send : String → Payload → List Sent → Option String
  pub new_id : ℕ → String

-- A call of the store.
unfoldable pub on_db : {A : Type 0} → Exec Db A → Exec World A
on_db m w = let (r, db') = m w.db in (r, record w { db = db' })

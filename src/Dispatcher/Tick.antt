-- ===== src/Dispatcher/Tick.antt =====
-- `Tick` of internal/dispatcher/dispatcher.go.
pub mod Trail
pub mod Frame
pub mod Open
pub mod Tracked
pub mod LastError
use signalwatch.Base.{
  ℕ, suc, Bool, true, false, not, ◌&&◌, String, ◌==◌, List, [], ◌∷◌, Option, none, some,
  if◌then◌else◌,
}
use signalwatch.Base.Result.{Result, ok, err, Exec, pure, wrapping, ◌>>=◌, ◌>>◌}
use signalwatch.Base.Time.{Time, unix_milli, zero_time}
use signalwatch.Subscriber.{Subscription, Incident}
use signalwatch.Rule.Model.{Rule}
use signalwatch.Rule.State.{LiveState, Transition, seed, is_firing, apply, opened, closed}
use signalwatch.Store.LiveStates
use signalwatch.Store.Incidents
use signalwatch.Store.Subscriptions
use signalwatch.Dispatcher.World.{World, Env, on_db}
use signalwatch.Dispatcher.Subscription.{Occasion, evaluate}

abbrev pub or_seed : String → Option LiveState → LiveState
or_seed id none = seed id
or_seed id (some ls) = ls

-- The incident that an opening transition records.
unfoldable pub new_incident : Rule → Transition → String → Incident
new_incident r t value = record {
  id = t.incident_id;
  rule_id = r.id;
  triggered_at = t.triggered_at;
  resolved_at = zero_time;
  last_value = value;
}

-- Step 4: the incident that the transition opens or closes.
unfoldable pub track_incident : Rule → Transition → String → Time → Exec World (Unit {0})
unfolding new_incident
track_incident r t value now =
    if opened t
    then wrapping "dispatcher: open incident"
        (on_db (Incidents.open_incident (new_incident r t value)))
    else if closed t
    then wrapping "dispatcher: resolve incident"
        (on_db (Incidents.resolve t.incident_id (unix_milli now)))
    else pure tt

module _ (env : Env) where
  open env use {new_id}

  -- An id for the incident that this evaluation opens, or "".
  unfoldable pub mint : Bool → LiveState → World → String × World
  mint triggered ls w =
      if triggered && not (is_firing ls.state)
      then (new_id w.minted, record w { minted = suc w.minted })
      else ("", w)

  -- Step 6: every subscription in turn; an error of one is left to the log.
  unfoldable pub notify_all :
      Rule → LiveState → Transition → Time → List Subscription → World → World
  notify_all r ls t now [] w = w
  notify_all r ls t now (s ∷ ss) w =
      notify_all r ls t now ss
        (evaluate env (record { rule = r; live = ls; sub = s; transition = t; now = now }) w).1

  -- Steps 3 to 6, after `Apply`.
  unfoldable pub settle : Rule → String → Time → LiveState × Transition → Exec World (Unit {0})
  settle r value now (ls, t) = do
    wrapping "dispatcher: upsert live state" (on_db (LiveStates.upsert ls))
    track_incident r t value now
    subs ←
        wrapping "dispatcher: list subscriptions"
          (on_db (Subscriptions.list_for_rule r.id r.labels))
    λ w. (ok tt, notify_all r ls t now subs w)

  abbrev apply_minted :
      Rule → Bool → String → Time → LiveState → String × World → Result (Unit {0}) × World
  apply_minted r triggered value now ls (new_id, w) =
      settle r value now (apply ls triggered value now new_id) w

  -- `Tick`, at the time `now`.
  unfoldable pub tick : Rule → Bool → String → Time → Exec World (Unit {0})
  tick r triggered value now = do
    found ← wrapping "dispatcher: load live state" (on_db (LiveStates.get r.id))
    λ w.
        apply_minted r triggered value now (or_seed r.id found)
          (mint triggered (or_seed r.id found) w)

-- ===== src/Dispatcher/Subscription.antt =====
-- `evaluateSubscription` of internal/dispatcher/dispatcher.go: the state machine of one
-- subscription over one evaluation.
pub mod Due
pub mod Paths
pub mod Exact
use signalwatch.Base.{
  ℕ, zero, suc, Bool, true, false, not, ◌&&◌, ◌||◌, String, ◌==◌, Option, none, some, if◌then◌else◌,
}
use signalwatch.Base.Int.{pos, ltb_ℤ, leb_ℤ}
use signalwatch.Base.Result.{ok, Exec, pure, ◌>>=◌, ◌>>◌}
use signalwatch.Base.Time.{Time, Duration, zero_time, sub as elapsed}
use signalwatch.Subscriber.{Subscription, IncidentSubState, NotificationKind}
use signalwatch.Rule.Model.{Rule}
use signalwatch.Rule.State.{LiveState, Transition, is_firing, closed}
use signalwatch.Store.SubStates
use signalwatch.Dispatcher.World.{World, Env, on_db}
use signalwatch.Dispatcher.Deliver.{Delivery, deliver}

abbrev pub is_zero_count : ℕ → Bool
is_zero_count zero = true
is_zero_count (suc n) = false

-- The delivery state of a pair that has none yet.
unfoldable pub fresh_state : String → String → IncidentSubState
fresh_state incident subscription = record {
  incident_id = incident;
  subscription_id = subscription;
  last_notified_at = zero_time;
  notify_count = 0;
  resolution_sent = false;
}

abbrev pub or_fresh : String → String → Option IncidentSubState → IncidentSubState
or_fresh incident subscription none = fresh_state incident subscription
or_fresh incident subscription (some state) = state

-- One evaluation of a subscription: the rule, its live state after `Apply`, the transition, `now`.
pub record Occasion : Type 0 where
  pub rule : Rule
  pub live : LiveState
  pub sub : Subscription
  pub transition : Transition
  pub now : Time

abbrev pub delivery : Occasion → String → NotificationKind → Delivery
delivery o incident kind = record {
  rule = o.rule;
  sub = o.sub;
  incident_id = incident;
  kind = kind;
  value = o.live.last_value;
  now = o.now;
}

-- Whether a resolve is due: a firing notification was sent, and no resolve yet.
abbrev pub was_notified : Option IncidentSubState → Bool
was_notified none = false
was_notified (some s) = not (is_zero_count s.notify_count) && not s.resolution_sent

-- Whether a renotification is due.
abbrev pub repeat_due : Subscription → IncidentSubState → Time → Bool
repeat_due s state now =
    ltb_ℤ (pos 0) s.repeat_interval && leb_ℤ s.repeat_interval (elapsed now state.last_notified_at)

module _ (env : Env) where
  -- The resolution path, after the delivery state is loaded.
  unfoldable pub notify_resolved : Occasion → Option IncidentSubState → Exec World (Unit {0})
  notify_resolved o none = pure tt
  notify_resolved o (some state) =
      if was_notified (some state) && o.sub.notify_on_resolve
      then (do
        deliver env (delivery o o.transition.incident_id NotificationKind.resolved)
        on_db (SubStates.upsert (record state { resolution_sent = true })))
      else pure tt

  -- The firing path, after the delivery state is loaded.
  unfoldable pub notify_firing : Occasion → IncidentSubState → Exec World (Unit {0})
  notify_firing o state =
      if is_zero_count state.notify_count
      then (do
        deliver env (delivery o o.live.incident_id NotificationKind.firing)
        on_db (SubStates.upsert (record state { last_notified_at = o.now; notify_count = 1 })))
      else if repeat_due o.sub state o.now
      then (do
        deliver env (delivery o o.live.incident_id NotificationKind.repeat)
        on_db (
            SubStates.upsert
              (record state { last_notified_at = o.now; notify_count = suc state.notify_count })))
      else pure tt

  unfoldable pub resolution_path : Occasion → Exec World (Unit {0})
  resolution_path o = do
    state ← on_db (SubStates.get o.transition.incident_id o.sub.id)
    notify_resolved o state

  unfoldable pub firing_path : Occasion → Exec World (Unit {0})
  firing_path o =
      if not (is_firing o.live.state)
      then pure tt
      else if ltb_ℤ (elapsed o.now o.live.triggered_at) o.sub.dwell
      then pure tt
      else do
        state ← on_db (SubStates.get o.live.incident_id o.sub.id)
        notify_firing o (or_fresh o.live.incident_id o.sub.id state)

  -- `evaluateSubscription`.
  unfoldable pub evaluate : Occasion → Exec World (Unit {0})
  evaluate o =
      if closed o.transition && not (o.transition.incident_id == "")
      then resolution_path o
      else firing_path o

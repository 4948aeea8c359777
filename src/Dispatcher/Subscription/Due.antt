-- ===== src/Dispatcher/Subscription/Due.antt =====
-- When a subscription is notified, described apart from the code.
use signalwatch.Base.{
  suc, ◌<◌, true, false, String, ◌≡◌, ◌≢◌, Option, arith, if◌then◌else◌, Bool-cases, ◌⊎◌, inl, inr,
}
use signalwatch.Base.Int.{pos, ◌≤ℤ◌, ◌<ℤ◌, leb_ℤ}
use signalwatch.Base.Lists.{find}
use signalwatch.Base.Result.{Exec, ◌>>◌}
use signalwatch.Base.Time.{Time, sub as elapsed}
use signalwatch.Subscriber.{IncidentSubState, NotificationKind}
use signalwatch.Rule.State.{is_firing, closed}
use signalwatch.Store.Db.{Db}
use signalwatch.Store.SubStates
use signalwatch.Dispatcher.World.{World, Env, on_db}
use signalwatch.Dispatcher.Deliver.{deliver}
use signalwatch.Dispatcher.Subscription.{Occasion, delivery, or_fresh}

-- The incident that the occasion is about: the one that was closed, or the open one.
abbrev pub incident_of : Occasion → String
incident_of o = if closed o.transition then o.transition.incident_id else o.live.incident_id

-- The delivery state of the incident and the subscription.
abbrev pub row_of : Occasion → Db → Option IncidentSubState
row_of o db = SubStates.found (find (SubStates.has_key (incident_of o) o.sub.id) db.sub_states)

abbrev pub state_of : Occasion → Option IncidentSubState → IncidentSubState
state_of o = or_fresh (incident_of o) o.sub.id

-- The rule has been firing for the dwell, and this evaluation did not close it.
abbrev pub HasDwelt : Occasion → Type 0
HasDwelt o =
    (closed o.transition ≡ false)
    × (is_firing o.live.state ≡ true)
    × (o.sub.dwell ≤ℤ elapsed o.now o.live.triggered_at)

-- A notification of the kind is due: a resolve once, where one was sent and it is wanted; the first
-- one after the dwell; a repeat where the interval has passed since the last.
abbrev pub Due : Occasion → IncidentSubState → NotificationKind → Type 0
Due o s NotificationKind.resolved =
    (closed o.transition ≡ true)
    × (o.transition.incident_id ≢ "")
    × (0 < s.notify_count)
    × (s.resolution_sent ≡ false)
    × (o.sub.notify_on_resolve ≡ true)
Due o s NotificationKind.firing = HasDwelt o × (s.notify_count ≡ 0)
Due o s NotificationKind.repeat =
    HasDwelt o
    × (0 < s.notify_count)
    × (pos 0 <ℤ o.sub.repeat_interval)
    × (o.sub.repeat_interval ≤ℤ elapsed o.now s.last_notified_at)

-- The delivery state after a notification of the kind.
abbrev pub advance : NotificationKind → Time → IncidentSubState → IncidentSubState
advance NotificationKind.resolved now s = record s { resolution_sent = true }
advance NotificationKind.firing now s = record s { last_notified_at = now; notify_count = 1 }
advance NotificationKind.repeat now s = record s {
  last_notified_at = now;
  notify_count = suc s.notify_count;
}

pub HasDwelt-cases : (o : Occasion) → closed o.transition ≡ false → HasDwelt o ⊎ (¬ HasDwelt o)
HasDwelt-cases o c = elim (Bool-cases (is_firing o.live.state)) [
  | inr idle ↦ inr (λ h. ground arith)
  | inl fires ↦ elim (Bool-cases (leb_ℤ o.sub.dwell (elapsed o.now o.live.triggered_at))) [
    | inl e ↦ inl (c, fires, ground arith)
    | inr e ↦ inr (λ h. ground arith)
  ]
]

module _ (env : Env) where
  -- One delivery and, unless it failed, the delivery state after it.
  abbrev pub perform : Occasion → IncidentSubState → NotificationKind → Exec World (Unit {0})
  perform o s kind = do
    deliver env (delivery o (incident_of o) kind)
    on_db (SubStates.upsert (advance kind o.now s))

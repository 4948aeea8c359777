-- ===== src/Dispatcher/Subscription/Paths.antt =====
-- The paths of `evaluateSubscription`, each where it is taken.
use signalwatch.Base.{
  true, false, ◌&&◌, eq_iff, ◌≡◌, ◌≢◌, refl, ◌∙◌, Option, none, some, arith, Bool-cases, inl, inr,
}
use signalwatch.Base.Int.{ltb_ℤ}
use signalwatch.Base.Result.{ok}
use signalwatch.Base.Time.{sub as elapsed}
use signalwatch.Subscriber.{IncidentSubState, NotificationKind}
use signalwatch.Rule.State.{is_firing, closed}
use signalwatch.Store.Db.{IsQuiet, query-quiet}
use signalwatch.Store.SubStates
use signalwatch.Dispatcher.World.{World, Env, on_db}
use signalwatch.Dispatcher.Subscription.{
  Occasion, evaluate, resolution_path, firing_path, notify_resolved, notify_firing, fresh_state,
  is_zero_count, repeat_due, was_notified,
}
use signalwatch.Dispatcher.Subscription.Due.{
  row_of, state_of, HasDwelt, HasDwelt-cases, Due, perform,
}

module _ (env : Env) where
  resolution_quiet :
      (o : Occasion) (w : World)
      → IsQuiet w.db
      → closed o.transition ≡ true
      → resolution_path env o w ≡ notify_resolved env o (row_of o w.db) w
  unfolding resolution_path on_db SubStates.get
  resolution_quiet o w quiet c = rw (query-quiet _ w.db quiet) (rw c)

  firing_quiet :
      (o : Occasion) (w : World)
      → IsQuiet w.db
      → HasDwelt o
      → firing_path env o w ≡ notify_firing env o (state_of o (row_of o w.db)) w
  unfolding firing_path on_db SubStates.get
  firing_quiet o w quiet (open_still, fires, dwelt) =
      let late : ltb_ℤ (elapsed o.now o.live.triggered_at) o.sub.dwell ≡ false = ground arith in
      rw fires (rw late (rw (query-quiet _ w.db quiet) (rw open_still)))

  not_dwelt :
      (o : Occasion) (w : World)
      → closed o.transition ≡ false
      → ¬ HasDwelt o
      → firing_path env o w ≡ (ok tt, w)
  unfolding firing_path
  not_dwelt o w open_still early = elim (Bool-cases (is_firing o.live.state)) [
    | inr idle ↦ rw idle
    | inl fires ↦ elim (Bool-cases (ltb_ℤ (elapsed o.now o.live.triggered_at) o.sub.dwell)) [
      | inl e ↦ rw (fires, e)
      | inr e ↦ absurd (early (open_still, fires, ground arith))
    ]
  ]

  evaluate-closed :
      (o : Occasion) (w : World)
      → closed o.transition ≡ true
      → o.transition.incident_id ≢ ""
      → evaluate env o w ≡ resolution_path env o w
  unfolding evaluate
  evaluate-closed o w c ne = ground (arith, eq_iff o.transition.incident_id "")

  evaluate_open :
      (o : Occasion) (w : World)
      → closed o.transition ≡ false
      → evaluate env o w ≡ firing_path env o w
  unfolding evaluate
  evaluate_open o w c = rw c

  resolved-Due :
      (o : Occasion) (st : Option IncidentSubState) (w : World)
      → Due o (state_of o st) NotificationKind.resolved
      → notify_resolved env o st w ≡ perform env o (state_of o st) NotificationKind.resolved w
  unfolding notify_resolved fresh_state
  resolved-Due o none w due = absurd (omega (arith, due.2))
  resolved-Due o (some s) w (c, ne, sent, once, wanted) =
      let owed : (was_notified (some s) && o.sub.notify_on_resolve) ≡ true = ground arith in
      rw owed (rw c)

  not_resolved-Due :
      (o : Occasion) (st : Option IncidentSubState) (w : World)
      → closed o.transition ≡ true
      → o.transition.incident_id ≢ ""
      → ¬ Due o (state_of o st) NotificationKind.resolved
      → notify_resolved env o st w ≡ (ok tt, w)
  unfolding notify_resolved
  not_resolved-Due o none w c ne undue = refl
  not_resolved-Due o (some s) w c ne undue =
      elim (Bool-cases (was_notified (some s) && o.sub.notify_on_resolve)) [
        | inl owed ↦ absurd (undue (c, ne, ground arith, ground arith, ground arith))
        | inr e ↦ rw e
      ]

  first-Due :
      (o : Occasion) (s : IncidentSubState) (w : World)
      → Due o s NotificationKind.firing
      → notify_firing env o s w ≡ perform env o s NotificationKind.firing w
  unfolding notify_firing
  first-Due o s w (dwelt, zeroth) =
      let first : is_zero_count s.notify_count ≡ true = ground arith in rw first (rw (dwelt.0))

  repeat_due_lem :
      (o : Occasion) (s : IncidentSubState) (w : World)
      → Due o s NotificationKind.repeat
      → notify_firing env o s w ≡ perform env o s NotificationKind.repeat w
  unfolding notify_firing
  repeat_due_lem o s w (dwelt, some_sent, positive, passed) =
      let later : is_zero_count s.notify_count ≡ false = ground arith in
      let again : repeat_due o.sub s o.now ≡ true = ground arith in
      rw later (rw again (rw (dwelt.0)))

  not_firing-Due :
      (o : Occasion) (s : IncidentSubState) (w : World)
      → HasDwelt o
      → ¬ Due o s NotificationKind.firing
      → ¬ Due o s NotificationKind.repeat
      → notify_firing env o s w ≡ (ok tt, w)
  unfolding notify_firing
  not_firing-Due o s w dwelt no_first no_repeat = elim (Bool-cases (is_zero_count s.notify_count)) [
    | inl e ↦ absurd (no_first (dwelt, ground arith))
    | inr e ↦ elim (Bool-cases (repeat_due o.sub s o.now)) [
      | inl d ↦ absurd (no_repeat (dwelt, ground arith, ground arith, ground arith))
      | inr d ↦ rw (e, d)
    ]
  ]

  pub evaluate-Due :
      (o : Occasion) (w : World) (kind : NotificationKind)
      → IsQuiet w.db
      → Due o (state_of o (row_of o w.db)) kind
      → evaluate env o w ≡ perform env o (state_of o (row_of o w.db)) kind w
  evaluate-Due o w NotificationKind.resolved quiet due =
      evaluate-closed o w due.0 due.1
      ∙ resolution_quiet o w quiet due.0
      ∙ resolved-Due o (row_of o w.db) w due
  evaluate-Due o w NotificationKind.firing quiet due =
      evaluate_open o w due.0.0
      ∙ firing_quiet o w quiet due.0
      ∙ first-Due o (state_of o (row_of o w.db)) w due
  evaluate-Due o w NotificationKind.repeat quiet due =
      evaluate_open o w due.0.0
      ∙ firing_quiet o w quiet due.0
      ∙ repeat_due_lem o (state_of o (row_of o w.db)) w due

  pub evaluate_undue :
      (o : Occasion) (w : World)
      → IsQuiet w.db
      → (closed o.transition ≡ true → o.transition.incident_id ≢ "")
      → ((kind : NotificationKind) → ¬ Due o (state_of o (row_of o w.db)) kind)
      → evaluate env o w ≡ (ok tt, w)
  evaluate_undue o w quiet named undue = elim (Bool-cases (closed o.transition)) [
    | inl c ↦
        evaluate-closed o w c (named c)
        ∙ resolution_quiet o w quiet c
        ∙ not_resolved-Due o (row_of o w.db) w c (named c) (undue NotificationKind.resolved)
    | inr c ↦ evaluate_open o w c ∙ open_undue c
  ]
    where
      open_undue : closed o.transition ≡ false → firing_path env o w ≡ (ok tt, w)
      open_undue c = elim (HasDwelt-cases o c) [
        | inl d ↦
            firing_quiet o w quiet d
            ∙ not_firing-Due o (state_of o (row_of o w.db)) w d (undue NotificationKind.firing)
                (undue NotificationKind.repeat)
        | inr n ↦ not_dwelt o w c n
      ]

-- ===== src/Dispatcher/Subscription/Exact.antt =====
-- `evaluateSubscription` delivers exactly what is due.
use signalwatch.Base.{true, ◌≡◌, ◌≢◌}
use signalwatch.Base.Result.{ok}
use signalwatch.Subscriber.{NotificationKind}
use signalwatch.Rule.State.{closed}
use signalwatch.Store.Db.{IsQuiet}
use signalwatch.Dispatcher.World.{World, Env}
use signalwatch.Dispatcher.Subscription.{Occasion, evaluate}
use signalwatch.Dispatcher.Subscription.Due.{row_of, state_of, Due, perform}
use signalwatch.Dispatcher.Subscription.Paths.{evaluate-Due, evaluate_undue}

module _ (env : Env) where
  -- An evaluation of a subscription delivers exactly what is due. Where a kind of notification is
  -- due it makes one delivery of that kind and then stores the delivery state that follows; where
  -- none is due it changes nothing. The database does not fail, and a closed incident has an id.
  pub evaluate_exact :
      (o : Occasion) (w : World)
      → IsQuiet w.db
      → (closed o.transition ≡ true → o.transition.incident_id ≢ "")
      → let s = state_of o (row_of o w.db) in
        ((kind : NotificationKind) → Due o s kind → evaluate env o w ≡ perform env o s kind w)
        × (((kind : NotificationKind) → ¬ Due o s kind) → evaluate env o w ≡ (ok tt, w))
  evaluate_exact o w quiet named =
      (λ kind due. evaluate-Due env o w kind quiet due, evaluate_undue env o w quiet named)

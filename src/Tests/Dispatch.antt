-- ===== src/Tests/Dispatch.antt =====
-- Deliveries to one subscriber over one channel.
use signalwatch.Base.{eq_iff, true, false, ◌≡◌, ◌≢◌, refl, sym, ap, ◌∙◌, List, [], ◌∷◌}
use mathlib.Core.Bool.{false≢true}
use signalwatch.Base.Int.{pos}
use signalwatch.Base.Lists.{any, find, select}
use signalwatch.Base.Result.{ok}
use signalwatch.Subscriber.{NotificationKind, is_empty}
use signalwatch.Rule.State.{LiveState, State, Transition, seed, closed}
use signalwatch.Store.Db.{query}
use signalwatch.Store.Subscribers
use signalwatch.Store.Notifications
use signalwatch.Dispatcher.World.{World, on_db}
use signalwatch.Store.LiveStates.{to_row}
use signalwatch.Dispatcher.Deliver.{Delivery, deliver, deliver_now, allowed, send_all, send_binding}
use signalwatch.Dispatcher.Deliver.Audit.{IsAudited}
use signalwatch.Dispatcher.Deliver.OneShot.{one_shot_at_most_once}
use signalwatch.Dispatcher.Subscription.{Occasion, evaluate}
use signalwatch.Dispatcher.Subscription.Due.{row_of, state_of, Due, perform}
use signalwatch.Dispatcher.Subscription.Exact.{evaluate_exact}
use signalwatch.Dispatcher.Tick.Trail.{Evaluation, run, run-IsAudited}
use signalwatch.Tests.Data.{env, hot, once, start, ann_db, tally, tally-injective}
use signalwatch.Dispatcher.Tick.{tick}
use signalwatch.Dispatcher.Tick.Tracked.{IsTracked, live_of, tick-IsTracked}
use signalwatch.Dispatcher.Tick.LastError.{tick_keeps_error}

abbrev pub first : Delivery
first = record {
  rule = hot;
  sub = once;
  incident_id = "i1";
  kind = NotificationKind.firing;
  value = "9 > 5";
  now = pos 10;
}

abbrev pub second : Delivery
second = record first { incident_id = "i2"; now = pos 99 }

first_sends : is_empty (deliver env first start).1.outbox ≡ false
unfolding deliver deliver_now on_db Notifications.exists_for_subscription query Subscribers.get find
    any allowed send_all send_binding Subscribers.of_row
first_sends = refl

outbox_grows : (deliver env first start).1.outbox ≢ []
outbox_grows = λ h. false≢true (sym first_sends ∙ ap is_empty h)

one_shot_at_most_once_example :
    (deliver env second (deliver env first start).1).1.outbox ≡ (deliver env first start).1.outbox
unfolding any
one_shot_at_most_once_example =
    one_shot_at_most_once env first second start (deliver env first start).1 refl refl refl refl
      outbox_grows (λ p h. h)

abbrev burning : LiveState
burning = record (seed "hot") { state = State.firing; incident_id = "i1" }

abbrev staying : Transition
staying = record {
  rule_id = "hot";
  prev = State.firing;
  next = State.firing;
  now = pos 10;
  triggered_at = pos 5;
  incident_id = "i1";
  last_value = "9 > 5";
}

abbrev occasion : Occasion
occasion = record { rule = hot; live = burning; sub = once; transition = staying; now = pos 10 }

evaluate_exact_example :
    ((kind : NotificationKind)
      → Due occasion (state_of occasion (row_of occasion start.db)) kind
      → evaluate env occasion start
        ≡ perform env occasion (state_of occasion (row_of occasion start.db)) kind start)
    × (((kind : NotificationKind)
          → ¬ Due occasion (state_of occasion (row_of occasion start.db)) kind)
        → evaluate env occasion start ≡ (ok tt, start))
unfolding closed
evaluate_exact_example = evaluate_exact env occasion start refl not_closed
  where
    not_closed : closed staying ≡ true → staying.incident_id ≢ ""
    not_closed h = cc

pub start-IsAudited : IsAudited env start
unfolding any
start-IsAudited = record { quiet = refl; unused = λ n le. refl; told = refl }

abbrev heating : List Evaluation
heating =
    record { rule = hot; triggered = true; value = "9 > 5"; now = pos 10 }
    ∷ record { rule = hot; triggered = false; value = "3 > 5"; now = pos 20 }
    ∷ []

run-IsAudited_example : IsAudited env (run env heating start)
run-IsAudited_example = run-IsAudited env tally-injective heating start start-IsAudited

start-IsTracked : IsTracked "hot" ann_db
unfolding select find
start-IsTracked = refl

tally_nonempty : tally 0 ≢ ""
unfolding tally
tally_nonempty h = false≢true ((eq_iff "x" "").1 h)

tick-IsTracked_example : IsTracked "hot" (tick env hot true "9 > 5" (pos 10) start).1.db
unfolding any
tick-IsTracked_example =
    tick-IsTracked env hot true "9 > 5" (pos 10) start refl tally_nonempty refl start-IsTracked

-- An earlier evaluation of the rule failed.
abbrev errored : World
errored = record start {
  db = record ann_db { live_states = to_row (record (seed "hot") { last_error = "down" }) ∷ [] };
}

tick_keeps_error_example :
    (live_of "hot" (tick env hot true "9 > 5" (pos 10) errored).1.db).last_error
    ≡ (live_of "hot" errored.db).last_error
unfolding any
tick_keeps_error_example =
    tick_keeps_error env hot true "9 > 5" (pos 10) errored refl tally_nonempty refl

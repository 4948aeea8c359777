-- ===== src/Dispatcher/Tick/Trail.antt =====
-- The audit trail over whole evaluations, and over any sequence of them.
use signalwatch.Base.{
  ℕ, Bool, not, ◌&&◌, String, ◌≡◌, refl, List, [], ◌∷◌, Option, none, some, arith, Bool-cases, inl,
  inr,
}
use signalwatch.Base.Int.{ℤ}
use signalwatch.Base.Keeps.{Keeps, Keeps-bind, Keeps-wrapping, keeps_rules}
use signalwatch.Base.Time.{Time}
use signalwatch.Subscriber.{Labels, Subscription, Incident, IncidentSubState}
use signalwatch.Rule.Model.{Rule}
use signalwatch.Rule.State.{LiveState, Transition, is_firing}
use signalwatch.Store.Db.{Db, exec_checked, exec_checked-quiet}
use signalwatch.Store.SubStates
use signalwatch.Store.LiveStates
use signalwatch.Store.Incidents
use signalwatch.Store.Subscriptions
use signalwatch.Dispatcher.World.{World, Env, on_db}
use signalwatch.Dispatcher.Deliver.Audit.{
  IsAudited, LeavesTrail, LeavesTrail-query, LeavesTrail-pure, LeavesTrail-bind, LeavesTrail-exec,
  on_db-IsAudited, deliver-IsAudited,
}
use signalwatch.Dispatcher.Subscription.{
  Occasion, evaluate, resolution_path, firing_path, notify_resolved, notify_firing,
}
use signalwatch.Dispatcher.Tick.{tick, settle, notify_all, track_incident, mint, or_seed}

-- One evaluation of a rule, as the evaluators hand it to `Tick`.
pub record Evaluation : Type 0 where
  pub rule : Rule
  pub triggered : Bool
  pub value : String
  pub now : Time

pub run : Env → List Evaluation → World → World
run env [] w = w
run env (e ∷ es) w = run env es (tick env e.rule e.triggered e.value e.now w).1

module _ (env : Env) (injective : (m n : ℕ) → env.new_id m ≡ env.new_id n → m ≡ n) where
  LeavesTrail-exec_checked :
      (accepts : Db → Bool) (f : Db → Db)
      → ((db : Db) → (f db).faults ≡ db.faults)
      → ((db : Db) → (f db).notifications ≡ db.notifications)
      → LeavesTrail (exec_checked accepts f)
  LeavesTrail-exec_checked accepts f faults same = record {
    quiet = λ db h. rw (exec_checked-quiet accepts f db h) (ground (arith, faults db));
    same = λ db h. rw (exec_checked-quiet accepts f db h) (ground (arith, same db));
  }

  upsert-IsAudited : (s : IncidentSubState) → Keeps (IsAudited env) (on_db (SubStates.upsert s))
  unfolding SubStates.upsert
  upsert-IsAudited s =
      on_db-IsAudited env injective _ (LeavesTrail-exec _ (λ db. refl) (λ db. refl))

  notify_resolved-IsAudited :
      (o : Occasion) (state : Option IncidentSubState)
      → Keeps (IsAudited env) (notify_resolved env o state)
  unfolding notify_resolved
  notify_resolved-IsAudited o none = search keeps_rules
  notify_resolved-IsAudited o (some state) =
      search (keeps_rules, deliver-IsAudited env injective, upsert-IsAudited)

  notify_firing-IsAudited :
      (o : Occasion) (state : IncidentSubState) → Keeps (IsAudited env) (notify_firing env o state)
  unfolding notify_firing
  notify_firing-IsAudited o state =
      search (keeps_rules, deliver-IsAudited env injective, upsert-IsAudited) depth 7

  evaluate-IsAudited : (o : Occasion) → Keeps (IsAudited env) (evaluate env o)
  unfolding evaluate resolution_path firing_path SubStates.get
  evaluate-IsAudited o =
      search
        (
          keeps_rules,
          on_db-IsAudited env injective,
          LeavesTrail-query,
          notify_resolved-IsAudited,
          notify_firing-IsAudited,
        )
        depth 8

  notify_all-IsAudited :
      (r : Rule) (ls : LiveState) (t : Transition) (now : Time) (subs : List Subscription)
      (w : World)
      → IsAudited env w
      → IsAudited env (notify_all env r ls t now subs w)
  unfolding notify_all
  notify_all-IsAudited r ls t now [] w h = h
  notify_all-IsAudited r ls t now (s ∷ ss) w h =
      let o : Occasion = record { rule = r; live = ls; sub = s; transition = t; now = now } in
      notify_all-IsAudited r ls t now ss (evaluate env o w).1 ((evaluate-IsAudited o).after w h)

  open_incident-IsAudited :
      (inc : Incident) → Keeps (IsAudited env) (on_db (Incidents.open_incident inc))
  unfolding Incidents.open_incident
  open_incident-IsAudited inc =
      on_db-IsAudited env injective _ (LeavesTrail-exec_checked _ _ (λ db. refl) (λ db. refl))

  resolve-IsAudited :
      (id : String) (ms : ℤ) → Keeps (IsAudited env) (on_db (Incidents.resolve id ms))
  unfolding Incidents.resolve
  resolve-IsAudited id ms =
      on_db-IsAudited env injective _ (LeavesTrail-exec _ (λ db. refl) (λ db. refl))

  upsert_live-IsAudited : (ls : LiveState) → Keeps (IsAudited env) (on_db (LiveStates.upsert ls))
  unfolding LiveStates.upsert
  upsert_live-IsAudited ls =
      on_db-IsAudited env injective _ (LeavesTrail-exec _ (λ db. refl) (λ db. refl))

  track_incident-IsAudited :
      (r : Rule) (t : Transition) (value : String) (now : Time)
      → Keeps (IsAudited env) (track_incident r t value now)
  unfolding track_incident
  track_incident-IsAudited r t value now =
      search (keeps_rules, open_incident-IsAudited, resolve-IsAudited)

  list_for_rule-IsAudited :
      (rule : String) (labels : Labels)
      → Keeps (IsAudited env) (on_db (Subscriptions.list_for_rule rule labels))
  unfolding Subscriptions.list_for_rule
  list_for_rule-IsAudited rule labels = on_db-IsAudited env injective _ (
      LeavesTrail-bind _ _ (LeavesTrail-query _)
        (λ out. LeavesTrail-bind _ _ (LeavesTrail-query _) (λ all. LeavesTrail-pure _)))

  settle-IsAudited :
      (r : Rule) (value : String) (now : Time) (a : LiveState × Transition)
      → Keeps (IsAudited env) (settle env r value now a)
  unfolding settle
  settle-IsAudited r value now (ls, t) =
      Keeps-bind _ _ (Keeps-wrapping _ _ (upsert_live-IsAudited ls)) λ _.
        Keeps-bind _ _ (track_incident-IsAudited r t value now) λ _.
          Keeps-bind _ _ (Keeps-wrapping _ _ (list_for_rule-IsAudited r.id r.labels))
            λ subs. record { after = notify_all-IsAudited r ls t now subs }

  mint-IsAudited :
      (triggered : Bool) (ls : LiveState) (w : World)
      → IsAudited env w
      → IsAudited env (mint env triggered ls w).1
  unfolding mint
  mint-IsAudited triggered ls w h = elim (Bool-cases (triggered && not (is_firing ls.state))) [
    | inl e ↦
        rw e (record { quiet = h.quiet; unused = λ n le. h.unused n (omega arith); told = h.told })
    | inr e ↦ rw e h
  ]

  pub tick-IsAudited :
      (r : Rule) (triggered : Bool) (value : String) (now : Time)
      → Keeps (IsAudited env) (tick env r triggered value now)
  unfolding tick LiveStates.get
  tick-IsAudited r triggered value now =
      Keeps-bind _ _ (Keeps-wrapping _ _ (on_db-IsAudited env injective _ (LeavesTrail-query _)))
        λ found. record {
          after = λ w h.
              (settle-IsAudited r value now _).after _
                (mint-IsAudited triggered (or_seed r.id found) w h);
        }

  -- Over any sequence of evaluations of any rules, the audit trail stays exact: the notification
  -- rows are the calls of `Send`, one for one and in order, each with its incident, channel,
  -- address, kind and outcome. The database does not fail, and minted ids are distinct and new.
  pub run-IsAudited :
      (es : List Evaluation) (w : World) → IsAudited env w → IsAudited env (run env es w)
  unfolding run
  run-IsAudited [] w h = h
  run-IsAudited (e ∷ es) w h =
      run-IsAudited es (tick env e.rule e.triggered e.value e.now w).1
        ((tick-IsAudited e.rule e.triggered e.value e.now).after w h)

-- ===== src/Eval/Scheduled/Errors.antt =====
-- What the error of a scheduled evaluation does to the live state of the rule.
use signalwatch.Base.{Option, true, String, ◌≡◌, refl, sym, subst, ◌∙◌, ap, [], ◌∷◌, none, some}
use signalwatch.Base.Lists.{find, upsert_by}
use signalwatch.Base.Result.{Error, ok, err, driver}
use signalwatch.Base.Time.{Time, zero_time}
use signalwatch.Rule.State.{State, LiveState}
use signalwatch.Store.Db.{Db, IsQuiet, tick, later, query, query-quiet, exec-quiet}
use signalwatch.Store.LiveStates
use signalwatch.Store.LiveStates.{found, has_rule, of_row, to_row}
use signalwatch.Store.LiveStates.RoundTrip.{cut, stored, get-upsert_live}
use signalwatch.Eval.Cache.{CompiledRule}
use signalwatch.Eval.Scheduled.{Sources, outcome, eval_one, surface, failed}
use signalwatch.Dispatcher.World.{World, Env}
use signalwatch.Dispatcher.Tick.Tracked.{or_seed-found}

get-fault :
    (id : String) (db : Db) → db.faults ≡ true ∷ [] → LiveStates.get id db ≡ (err driver, tick db)
unfolding LiveStates.get query
get-fault id db faulty = simp faulty refl

-- What an error leaves of a live state as it was read, or of none: the time and the text of the error
-- are new; the state, the incident, the last value and the trigger time stay.
unfoldable pub with_error : String → String → Time → Option LiveState → LiveState
with_error id text now (some s) = record {
  rule_id = s.rule_id;
  state = s.state;
  triggered_at = cut s.triggered_at;
  last_eval_at = cut now;
  last_value = s.last_value;
  last_error = text;
  incident_id = s.incident_id;
}
with_error id text now none = record {
  rule_id = id;
  state = State.ok;
  triggered_at = zero_time;
  last_eval_at = cut now;
  last_value = "";
  last_error = text;
  incident_id = "";
}

module _ (env : Env) (src : Sources) where
  stored-failed :
      (id : String) (e : Error) (now : Time) (found : Option LiveState)
      → stored (failed env src id e now found) ≡ with_error id (src.error_text e) now found
  unfolding with_error cut zero_time
  stored-failed id e now (some s) = refl
  stored-failed id e now none = refl

  surfaced :
      (cr : CompiledRule) (now : Time) (e : Error) (w : World)
      → IsQuiet w.db
      → outcome env src cr.compiled cr.rule.input_ref now ≡ err e
      → eval_one env src cr now w ≡ record w {
        db =
            (LiveStates.upsert
              (failed env src cr.rule.id e now
                (found (find (has_rule cr.rule.id) w.db.live_states)))
              w.db).1;
      }
  unfolding eval_one surface LiveStates.get
  surfaced cr now e w quiet bad = simp (bad, query-quiet _ w.db quiet) refl

  -- The error of an evaluation does not flip the rule. The rule's live state afterwards is what it
  -- was before, or the fresh one, but for the time and the text of the error, with its instants cut
  -- to milliseconds; nothing is sent, no id is minted, and no other table is touched. The database
  -- does not fail.
  pub eval_one_error :
      (cr : CompiledRule) (now : Time) (e : Error) (w : World)
      → IsQuiet w.db
      → outcome env src cr.compiled cr.rule.input_ref now ≡ err e
      → let found = found (find (has_rule cr.rule.id) w.db.live_states) in
        let w' = eval_one env src cr now w in
        ((LiveStates.get cr.rule.id w'.db).0
          ≡ ok (some (with_error cr.rule.id (src.error_text e) now found)))
        × (w' ≡ record w { db = record w.db { live_states = w'.db.live_states } })
  unfolding LiveStates.upsert
  eval_one_error cr now e w quiet bad =
      let s =
        failed env src cr.rule.id e now (found (find (has_rule cr.rule.id) w.db.live_states)) in
      let rows = upsert_by (has_rule s.rule_id) (to_row s) w.db.live_states in
      let same = surfaced cr now e w quiet bad in
      let whole : eval_one env src cr now w ≡ record w { db = record w.db { live_states = rows } } =
        same ∙ ap (λ p. record w { db = p.1 }) (exec-quiet _ w.db quiet) in
      (
        ap (λ v. (LiveStates.get cr.rule.id v.db).0) same
            ∙ subst (λ i. (LiveStates.get i (LiveStates.upsert s w.db).1).0 ≡ ok (some (stored s)))
                (or_seed-found cr.rule.id w.db.live_states)
                (get-upsert_live s cr.rule.id w.db quiet).0
            ∙ ap (λ t. ok (some t))
                (stored-failed cr.rule.id e now
                  (found (find (has_rule cr.rule.id) w.db.live_states))),
        whole
            ∙ sym
                (ap (λ v. record w { db = record w.db { live_states = v.db.live_states } }) whole),
      )

  -- A failed read of the live state loses the incident. Where the condition's evaluation fails, the
  -- next statement, the read of the live state, fails too, and those after it do not, the rule's live
  -- state afterwards is not firing and names no incident, whatever it was before, while the table of
  -- incidents is as it was, with the open incident of the rule in it.
  pub eval_one_read_error :
      (cr : CompiledRule) (now : Time) (e : Error) (w : World)
      → w.db.faults ≡ true ∷ []
      → outcome env src cr.compiled cr.rule.input_ref now ≡ err e
      → let w' = eval_one env src cr now w in
        (s : LiveState) × ((LiveStates.get cr.rule.id w'.db).0 ≡ ok (some s))
        × (s.state ≡ State.ok)
        × (s.incident_id ≡ "")
        × (s.last_error ≡ src.error_text e)
        × (w'.db.incidents ≡ w.db.incidents)
  unfolding eval_one surface LiveStates.upsert with_error
  eval_one_read_error cr now e w faulty bad =
      let s = failed env src cr.rule.id e now none in
      let rows = upsert_by (has_rule s.rule_id) (to_row s) w.db.live_states in
      let same : eval_one env src cr now w ≡ record w { db = (LiveStates.upsert s (tick w.db)).1 } =
        simp (bad, get-fault cr.rule.id w.db faulty) refl in
      (
        with_error cr.rule.id (src.error_text e) now none,
        ap (λ v. (LiveStates.get cr.rule.id v.db).0) same
            ∙ (get-upsert_live s cr.rule.id (tick w.db) (ap later faulty)).0
            ∙ ap (λ t. ok (some t)) (stored-failed cr.rule.id e now none),
        refl,
        refl,
        refl,
        ap (λ v. v.db.incidents) same
            ∙ ap (λ p. p.1.incidents) (exec-quiet _ (tick w.db) (ap later faulty)),
      )

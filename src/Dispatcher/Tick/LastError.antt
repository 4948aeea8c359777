-- ===== src/Dispatcher/Tick/LastError.antt =====
-- The text of the last error in a live state, over one `Tick`.
use mathlib.Core.Bool.{true≢false}
use signalwatch.Base.{
  suc, Bool, true, false, not, ◌&&◌, String, ◌==◌, ◌≡◌, ◌≢◌, sym, ◌∙◌, ap, inl, inr, Bool-cases,
  arith, eq_iff,
}
use signalwatch.Base.Lists.{any, find, upsert_by, find-upsert_by_hit}
use signalwatch.Base.Time.{Time}
use signalwatch.Rule.Model.{Rule}
use signalwatch.Rule.State.{LiveState, is_firing, apply, apply_switch, opened}
use signalwatch.Store.Db.{IsQuiet, query-quiet}
use signalwatch.Store.Incidents.{has_id}
use signalwatch.Store.LiveStates
use signalwatch.Store.LiveStates.{has_rule, to_row, of_row, found}
use signalwatch.Dispatcher.World.{World, Env, on_db}
use signalwatch.Dispatcher.Tick.{tick, settle, mint, or_seed}
use signalwatch.Dispatcher.Tick.Frame.{HasTables}
use signalwatch.Dispatcher.Tick.Open.{tracked}
use signalwatch.Dispatcher.Tick.Tracked.{
  live_of, settle-HasTables, apply-rule_id, apply-opened, or_seed-found,
}

apply-last_error :
    (ls : LiveState) (triggered : Bool) (value : String) (now : Time) (fresh : String)
    → (apply ls triggered value now fresh).0.last_error ≡ ls.last_error
unfolding apply apply_switch
apply-last_error ls triggered value now fresh = ground arith

module _ (env : Env) where
  settle-last_error :
      (r : Rule) (triggered : Bool) (value : String) (now : Time) (fresh : String) (w : World)
      → IsQuiet w.db
      → (opened (apply (live_of r.id w.db) triggered value now fresh).1 ≡ true
          → any
              (has_id (apply (live_of r.id w.db) triggered value now fresh).1.incident_id)
              w.db.incidents
            ≡ false)
      → (live_of r.id
          (settle env r value now
            (apply (live_of r.id w.db) triggered value now fresh)
            w).1.db).last_error
        ≡ (live_of r.id w.db).last_error
  unfolding to_row of_row
  settle-last_error r triggered value now fresh w quiet new =
      ap (λ o. (or_seed r.id (found o)).last_error)
        (ap (find (has_rule r.id)) tables.lives_same
          ∙ find-upsert_by_hit _ _ (to_row ls') w.db.live_states
              (λ x. ap (λ i. x.rule_id == i) named) ((eq_iff ls'.rule_id r.id).1 named))
      ∙ apply-last_error (live_of r.id w.db) triggered value now fresh
    where
      ls' : LiveState
      ls' = (apply (live_of r.id w.db) triggered value now fresh).0

      tables :
          HasTables
            (tracked r
              (apply (live_of r.id w.db) triggered value now fresh).1
              value
              now
              w.db.incidents)
            (upsert_by (has_rule ls'.rule_id) (to_row ls') w.db.live_states)
            (settle env r value now (apply (live_of r.id w.db) triggered value now fresh) w).1
      tables =
          settle-HasTables env r value now ls'
            (apply (live_of r.id w.db) triggered value now fresh).1 w quiet new

      named : ls'.rule_id ≡ r.id
      named =
          apply-rule_id (live_of r.id w.db) triggered value now fresh
          ∙ or_seed-found r.id w.db.live_states

  -- A successful evaluation never clears the error of an earlier one: the live state of the rule has
  -- the same text of the last error after the `Tick` as before. The database does not fail, and the
  -- next minted id is not empty and names no incident yet.
  pub tick_keeps_error :
      (r : Rule) (triggered : Bool) (value : String) (now : Time) (w : World)
      → IsQuiet w.db
      → env.new_id w.minted ≢ ""
      → any (has_id (env.new_id w.minted)) w.db.incidents ≡ false
      → (live_of r.id (tick env r triggered value now w).1.db).last_error
        ≡ (live_of r.id w.db).last_error
  unfolding tick on_db LiveStates.get mint
  tick_keeps_error r triggered value now w quiet named new =
      elim (Bool-cases (triggered && not (is_firing (live_of r.id w.db).state))) [
        | inl m ↦
            simp (query-quiet _ w.db quiet, m)
              (settle-last_error r triggered value now (env.new_id w.minted)
                (record w { minted = suc w.minted }) quiet
                (λ o.
                  ap (λ i. any (has_id i) w.db.incidents)
                    ((apply-opened (live_of r.id w.db) triggered value now (env.new_id w.minted)
                        o).1
                      named)
                  ∙ new))
        | inr m ↦
            simp (query-quiet _ w.db quiet, m)
              (settle-last_error r triggered value now "" w quiet (λ o. absurd (
                true≢false
                  (sym (apply-opened (live_of r.id w.db) triggered value now "" o).0 ∙ m))))
      ]

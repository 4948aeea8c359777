-- ===== src/Dispatcher/Tick/Tracked.antt =====
-- The unresolved incidents of a rule against its live state, over one `Tick`.
use mathlib.Core.Bool.{true≢false}
use signalwatch.Base.{
  suc, Option-cases, Bool, true, false, not, ◌&&◌, String, ◌==◌, ◌≡◌, ◌≢◌, refl, sym, ◌∙◌, ap, List,
  [], ◌∷◌, ◌++◌, some, inl, inr, Bool-cases, arith, eq_iff,
}
use signalwatch.Base.Lists.{any, find, find_sound, update_where, upsert_by, find-upsert_by_hit}
use signalwatch.Base.Time.{Time, unix_milli}
use signalwatch.Rule.Model.{Rule}
use signalwatch.Rule.State.{LiveState, Transition, is_firing, apply, apply_switch, opened, closed}
use signalwatch.Store.Db.{Db, LiveStateRow, IsQuiet, query-quiet, exec-quiet, exec_checked-quiet}
use signalwatch.Store.Incidents
use signalwatch.Store.Incidents.{has_id, open_row}
use signalwatch.Store.LiveStates
use signalwatch.Store.LiveStates.{has_rule, to_row, of_row, found}
use signalwatch.Store.Subscriptions
use signalwatch.Dispatcher.World.{World, Env, on_db}
use signalwatch.Dispatcher.Tick.{tick, settle, mint, or_seed, new_incident, track_incident}
use signalwatch.Dispatcher.Tick.Frame.{HasTables, notify_all-HasTables}
use signalwatch.Dispatcher.Tick.Open.{open_ids, current_ids, tracked, tracked-apply}

-- The database after step 3, and after each kind of step 4.
abbrev lived : LiveState → Db → Db
lived ls db = record db { live_states = upsert_by (has_rule ls.rule_id) (to_row ls) db.live_states }

abbrev opened_db : Rule → Transition → String → Db → Db
opened_db r t value db = record db {
  incidents = db.incidents ++ open_row (new_incident r t value) ∷ [];
}

abbrev closed_db : Transition → Time → Db → Db
closed_db t now db = record db {
  incidents =
      update_where (has_id t.incident_id) (λ i. record i { resolved_at = some (unix_milli now) })
        db.incidents;
}

module _ (env : Env) where
  -- Steps 3 to 6 leave the tables that step 3 and step 4 make.
  pub settle-HasTables :
      (r : Rule) (value : String) (now : Time) (ls : LiveState) (t : Transition) (w : World)
      → IsQuiet w.db
      → (opened t ≡ true → any (has_id t.incident_id) w.db.incidents ≡ false)
      → HasTables
          (tracked r t value now w.db.incidents)
          (upsert_by (has_rule ls.rule_id) (to_row ls) w.db.live_states)
          (settle env r value now (ls, t) w).1
  unfolding settle on_db LiveStates.upsert track_incident Incidents.open_incident Incidents.resolve
      Subscriptions.list_for_rule new_incident
  settle-HasTables r value now ls t w quiet fresh = elim (Bool-cases (opened t)) [
    | inl o ↦
        simp
          (
            exec-quiet _ w.db quiet,
            o,
            exec_checked-quiet _ _ (lived ls w.db) quiet,
            fresh o,
            query-quiet _ (opened_db r t value (lived ls w.db)) quiet,
          )
          (notify_all-HasTables env _ _ r ls t now _ _
            (record { incidents_same = refl; lives_same = refl }))
    | inr o ↦ elim (Bool-cases (closed t)) [
      | inl c ↦
          simp
            (
              exec-quiet _ w.db quiet,
              o,
              c,
              exec-quiet _ (lived ls w.db) quiet,
              query-quiet _ (closed_db t now (lived ls w.db)) quiet,
            )
            (notify_all-HasTables env _ _ r ls t now _ _
              (record { incidents_same = refl; lives_same = refl }))
      | inr c ↦
          simp (exec-quiet _ w.db quiet, o, c, query-quiet _ (lived ls w.db) quiet)
            (notify_all-HasTables env _ _ r ls t now _ _
              (record { incidents_same = refl; lives_same = refl }))
    ]
  ]

pub or_seed-found :
    (id : String) (rows : List LiveStateRow)
    → (or_seed id (found (find (has_rule id) rows))).rule_id ≡ id
unfolding of_row
or_seed-found id rows = elim (Option-cases (find (has_rule id) rows)) [
  | inl e ↦ simp e refl
  | inr (row, e) ↦ simp e ((eq_iff row.rule_id id).0 (find_sound (has_rule id) row rows e).1)
]

pub apply-rule_id :
    (ls : LiveState) (triggered : Bool) (value : String) (now : Time) (fresh : String)
    → (apply ls triggered value now fresh).0.rule_id ≡ ls.rule_id
unfolding apply apply_switch
apply-rule_id ls triggered value now fresh = ground arith

pub apply-opened :
    (ls : LiveState) (triggered : Bool) (value : String) (now : Time) (fresh : String)
    → opened (apply ls triggered value now fresh).1 ≡ true
    → ((triggered && not (is_firing ls.state)) ≡ true)
      × (fresh ≢ "" → (apply ls triggered value now fresh).1.incident_id ≡ fresh)
unfolding apply apply_switch opened
apply-opened ls triggered value now fresh h = ground (arith, eq_iff fresh "")

-- The live state of a rule, or the fresh one.
abbrev pub live_of : String → Db → LiveState
live_of rule db = or_seed rule (found (find (has_rule rule) db.live_states))

-- The unresolved incidents of a rule are exactly the one that its live state names while it fires.
abbrev pub IsTracked : String → Db → Type 0
IsTracked rule db = open_ids rule db.incidents ≡ current_ids (live_of rule db)

current_ids-stored : (ls : LiveState) → current_ids (of_row (to_row ls)) ≡ current_ids ls
unfolding of_row to_row
current_ids-stored ls = ground (arith, eq_iff ls.incident_id "")

module _ (env : Env) where
  settle-IsTracked :
      (r : Rule) (triggered : Bool) (value : String) (now : Time) (fresh : String) (w : World)
      → IsQuiet w.db
      → (opened (apply (live_of r.id w.db) triggered value now fresh).1 ≡ true
          → any
              (has_id (apply (live_of r.id w.db) triggered value now fresh).1.incident_id)
              w.db.incidents
            ≡ false)
      → IsTracked r.id w.db
      → IsTracked r.id
          (settle env r value now (apply (live_of r.id w.db) triggered value now fresh) w).1.db
  unfolding to_row
  settle-IsTracked r triggered value now fresh w quiet new h =
      ap (open_ids r.id) tables.incidents_same
      ∙ tracked-apply r triggered value now fresh (live_of r.id w.db) w.db.incidents h
      ∙ sym (current_ids-stored ls')
      ∙ sym (
          ap (λ o. current_ids (or_seed r.id (found o)))
            (ap (find (has_rule r.id)) tables.lives_same
              ∙ find-upsert_by_hit _ _ (to_row ls') w.db.live_states
                  (λ x. ap (λ i. x.rule_id == i) named) ((eq_iff ls'.rule_id r.id).1 named)))
    where
      ls' : LiveState
      ls' = (apply (live_of r.id w.db) triggered value now fresh).0

      tables :
          HasTables
            (tracked r
              (apply (live_of r.id w.db) triggered value now fresh).1
              value
              now
              w.db.incidents)
            (upsert_by (has_rule ls'.rule_id) (to_row ls') w.db.live_states)
            (settle env r value now (apply (live_of r.id w.db) triggered value now fresh) w).1
      tables =
          settle-HasTables env r value now ls'
            (apply (live_of r.id w.db) triggered value now fresh).1 w quiet new

      named : ls'.rule_id ≡ r.id
      named =
          apply-rule_id (live_of r.id w.db) triggered value now fresh
          ∙ or_seed-found r.id w.db.live_states

  -- A `Tick` keeps the incidents in step with the state of the rule. Where the unresolved incidents
  -- of the rule are exactly the one that its live state names while it fires, and none while it does
  -- not, the same holds after the `Tick`, whatever the evaluation says. The database does not fail,
  -- and the next minted id is not empty and names no incident yet.
  pub tick-IsTracked :
      (r : Rule) (triggered : Bool) (value : String) (now : Time) (w : World)
      → IsQuiet w.db
      → env.new_id w.minted ≢ ""
      → any (has_id (env.new_id w.minted)) w.db.incidents ≡ false
      → IsTracked r.id w.db
      → IsTracked r.id (tick env r triggered value now w).1.db
  unfolding tick on_db LiveStates.get mint
  tick-IsTracked r triggered value now w quiet named new h =
      elim (Bool-cases (triggered && not (is_firing (live_of r.id w.db).state))) [
        | inl m ↦
            simp (query-quiet _ w.db quiet, m)
              (settle-IsTracked r triggered value now (env.new_id w.minted)
                (record w { minted = suc w.minted }) quiet
                (λ o.
                  ap (λ i. any (has_id i) w.db.incidents)
                    ((apply-opened (live_of r.id w.db) triggered value now (env.new_id w.minted)
                        o).1
                      named)
                  ∙ new)
                h)
        | inr m ↦
            simp (query-quiet _ w.db quiet, m)
              (settle-IsTracked r triggered value now "" w quiet
                (λ o. absurd (
                  true≢false
                    (sym (apply-opened (live_of r.id w.db) triggered value now "" o).0 ∙ m)))
                h)
      ]

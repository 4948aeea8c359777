-- ===== src/Engine/Divergence.antt =====
-- Two calls of `ruleAPI.Update` after which the cache is not current.
use signalwatch.Base.{true, false, ◌≡◌, refl, ◌∙◌, ap, some}
use signalwatch.Base.Lists.{any, update_where, update_where_none}
use signalwatch.Base.Result.{Error, ok, err}
use signalwatch.Base.Time.{Time}
use signalwatch.Rule.Condition.{Condition, Compiled, Libraries, compile}
use signalwatch.Rule.Model.{Rule, validate}
use signalwatch.Store.Db.{IsQuiet, exec-quiet, query-quiet}
use signalwatch.Store.Rules
use signalwatch.Store.Rules.{has_id, updated_row, of_row}
use signalwatch.Eval.Cache
use signalwatch.Engine.{
  Engine, update, restamped, keep_compiled, on_store, on_cache, refresh, compile_and_cache,
}
use signalwatch.Engine.Current.{get-set_hit}
use signalwatch.Engine.Rows.{with_rules, updated}
use signalwatch.Engine.Calls.{store-update}

module _ (lib : Libraries) where
  -- The update of a valid rule, up to what it does to the cache.
  updates :
      (now : Time) (r : Rule) (c : Condition) (e : Engine)
      → IsQuiet e.db
      → validate r ≡ ok tt
      → r.condition ≡ some c
      → r.enabled ≡ true
      → update lib now r e
        ≡ keep_compiled
            (restamped now r)
            (compile lib c)
            (with_rules (update_where (has_id r.id) (updated_row now r c) e.db.rules) e.db e)
  unfolding update on_store refresh compile_and_cache
  updates now r c e quiet valid set on =
      simp (valid, store-update lib now r c e.db set, exec-quiet _ e.db quiet, on, set) refl

  -- An update of a rule that is not stored succeeds, stores nothing, and has the engine evaluate the
  -- rule all the same. The rule is valid and enabled, and its condition compiles.
  pub update_of_missing :
      (now : Time) (r : Rule) (c : Condition) (k : Compiled) (e : Engine)
      → IsQuiet e.db
      → validate r ≡ ok tt
      → r.condition ≡ some c
      → r.enabled ≡ true
      → compile lib c ≡ ok k
      → any (has_id r.id) e.db.rules ≡ false
      → ((update lib now r e).0 ≡ ok tt)
        × ((update lib now r e).1.db ≡ e.db)
        × (Cache.get r.id (update lib now r e).1.cache
            ≡ some (record { rule = restamped now r; compiled = k }))
  unfolding on_cache
  update_of_missing now r c k e quiet valid set on good missing =
      let same =
        updates now r c e quiet valid set on
        ∙ ap
            (λ k.
              keep_compiled (restamped now r) k
                (with_rules (update_where (has_id r.id) (updated_row now r c) e.db.rules) e.db e))
            good in
      (
        ap (λ p. p.0) same,
        ap (λ p. p.1.db) same
            ∙ ap (λ rows. record e.db { rules = rows })
                (update_where_none _ (updated_row now r c) e.db.rules missing),
        ap (λ p. Cache.get r.id p.1.cache) same
            ∙ get-set_hit (record { rule = restamped now r; compiled = k }) e.cache,
      )

  -- An update of a stored rule with a condition that does not compile returns the error of the
  -- compiler, and yet the rule reads back with the new condition, enabled, while the engine still
  -- evaluates what it evaluated before. The rule is valid and enabled, and the database does not fail.
  pub update_not_compiling :
      (now : Time) (r : Rule) (c : Condition) (x : Error) (e : Engine)
      → IsQuiet e.db
      → validate r ≡ ok tt
      → r.condition ≡ some c
      → r.enabled ≡ true
      → compile lib c ≡ err x
      → any (has_id r.id) e.db.rules ≡ true
      → let (result, e') = update lib now r e in
        (result ≡ err x)
        × ((s : Rule) × ((Rules.get r.id e'.db).0 ≡ ok (some s))
            × (s.id ≡ r.id)
            × (s.condition ≡ some c)
            × (s.enabled ≡ true))
        × (e'.cache ≡ e.cache)
  unfolding Rules.get of_row updated_row
  update_not_compiling now r c x e quiet valid set on bad old =
      let same =
        updates now r c e quiet valid set on
        ∙ ap
            (λ k.
              keep_compiled (restamped now r) k
                (with_rules (update_where (has_id r.id) (updated_row now r c) e.db.rules) e.db e))
            bad in
      let (row, own, here) = (updated lib now r c e.db.rules old).0 in
      let rows = update_where (has_id r.id) (updated_row now r c) e.db.rules in
      (
        ap (λ p. p.0) same,
        (
          of_row (updated_row now r c row),
          ap (λ p. (Rules.get r.id p.1.db).0) same
              ∙ ap (λ p. p.0) (query-quiet _ (record e.db { rules = rows }) quiet)
              ∙ ap (λ o. ok (Rules.found o)) here,
          own,
          refl,
          on,
        ),
        ap (λ p. p.1.cache) same,
      )

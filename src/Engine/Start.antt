-- ===== src/Engine/Start.antt =====
-- `reloadAll`, which fills the cache when the engine starts.
use signalwatch.Base.{
  Bool, true, false, String, List, [], ◌∷◌, map, none, some, ◌≡◌, ◌≢◌, refl, sym, subst, ◌∙◌, ap,
  ap₂, inl, inr, arith, eq_iff, Bool-cases, if◌then◌else◌,
}
use signalwatch.Base.Keys.{ne_of, same_or_apart}
use signalwatch.Base.Lists.{find, any, sort_by}
use signalwatch.Base.Sorting.{AtMostOne, find-sort_by, sort_by-AtMostOne}
use signalwatch.Base.Result.{ok, err, Result-cases}
use signalwatch.Rule.Condition.{Libraries, compile}
use signalwatch.Store.Db.{RuleRow, IsQuiet, query-quiet}
use signalwatch.Store.Rules
use signalwatch.Store.Rules.{has_id, of_row, by_name}
use signalwatch.Eval.Cache
use signalwatch.Eval.Cache.{Cache}
use signalwatch.Engine.{
  Engine, compile_and_cache, reload, reload_all, logged, on_store, on_cache, keep_compiled,
}
use signalwatch.Engine.Current.{
  viewed, entry, timeless, expected, IsCurrent, get-set_hit, get-set_miss,
}
use signalwatch.Engine.Rows.{compile_and_cache-ok, compile_and_cache-err, expected-row}

-- The ids of the table are distinct: the primary key.
abbrev pub IsKeyed : List RuleRow → Type 0
IsKeyed rows = (id : String) → AtMostOne (has_id id) rows

get-empty : (c : Cache) (id : String) → c ≡ [] → Cache.get id c ≡ none
unfolding Cache.get find
get-empty c id empty = rw empty refl

module _ (lib : Libraries) where
  -- One round of the loop.
  abbrev round : RuleRow → Engine → Engine
  round row e = if row.enabled then logged (compile_and_cache lib (of_row row)) e else e

  round_new :
      (row : RuleRow) (e : Engine)
      → Cache.get row.id e.cache ≡ none
      → viewed (Cache.get row.id (round row e).cache) ≡ expected lib (some row)
  unfolding of_row
  round_new row e new = elim (Bool-cases row.enabled) [
    | inl on ↦ elim (Result-cases (compile lib row.condition)) [
      | inl (k, good) ↦
          ap (λ s. viewed (Cache.get row.id s.cache))
            (turn on ∙ compile_and_cache-ok lib (of_row row) row.condition k e refl good)
          ∙ ap viewed (get-set_hit (record { rule = of_row row; compiled = k }) e.cache)
          ∙ sym (expected-row lib row (of_row row) k on refl good)
      | inr (x, bad) ↦
          ap (λ s. viewed (Cache.get row.id s.cache))
            (turn on ∙ compile_and_cache-err lib (of_row row) row.condition x e refl bad)
          ∙ ap viewed new
          ∙ sym (ap₂ (λ b k. entry b (timeless (of_row row)) k) on bad)
    ]
    | inr off ↦
        ap (λ s. viewed (Cache.get row.id s.cache)) (turn off)
        ∙ ap viewed new
        ∙ sym (ap (λ b. entry b (timeless (of_row row)) (compile lib row.condition)) off)
  ]
    where
      turn :
          {b : Bool}
          → row.enabled ≡ b
          → round row e ≡ (if b then logged (compile_and_cache lib (of_row row)) e else e)
      turn h = ap (λ b. if b then logged (compile_and_cache lib (of_row row)) e else e) h

  round_apart :
      (row : RuleRow) (e : Engine) (id : String)
      → id ≢ row.id
      → Cache.get id (round row e).cache ≡ Cache.get id e.cache
  unfolding of_row
  round_apart row e id ne = elim (Bool-cases row.enabled) [
    | inl on ↦ elim (Result-cases (compile lib row.condition)) [
      | inl (k, good) ↦
          ap (λ s. Cache.get id s.cache)
            (turn on ∙ compile_and_cache-ok lib (of_row row) row.condition k e refl good)
          ∙ get-set_miss (record { rule = of_row row; compiled = k }) e.cache id ne
      | inr (x, bad) ↦
          ap (λ s. Cache.get id s.cache)
            (turn on ∙ compile_and_cache-err lib (of_row row) row.condition x e refl bad)
    ]
    | inr off ↦ ap (λ s. Cache.get id s.cache) (turn off)
  ]
    where
      turn :
          {b : Bool}
          → row.enabled ≡ b
          → round row e ≡ (if b then logged (compile_and_cache lib (of_row row)) e else e)
      turn h = ap (λ b. if b then logged (compile_and_cache lib (of_row row)) e else e) h

  round-db : (row : RuleRow) (e : Engine) → (round row e).db ≡ e.db
  unfolding compile_and_cache of_row on_cache
  round-db row e =
      elim row.enabled
        as (λ b. (if b then logged (compile_and_cache lib (of_row row)) e else e).db ≡ e.db) [
          | true ↦
              elim (compile lib row.condition)
                as (λ k. (keep_compiled (of_row row) k e).1.db ≡ e.db) [
                  | ok k ↦ refl
                  | err x ↦ refl
                ]
          | false ↦ refl
        ]

  reload-db : (rows : List RuleRow) (e : Engine) → (reload lib (map of_row rows) e).db ≡ e.db
  unfolding reload of_row
  reload-db [] e = refl
  reload-db (row ∷ rows) e = reload-db rows (round row e) ∙ round-db row e

  -- The loop leaves the ids of other rules alone.
  reload_apart :
      (rows : List RuleRow) (e : Engine) (id : String)
      → any (has_id id) rows ≡ false
      → Cache.get id (reload lib (map of_row rows) e).cache ≡ Cache.get id e.cache
  unfolding reload any of_row
  reload_apart [] e id none_left = refl
  reload_apart (row ∷ rows) e id none_left = elim (Bool-cases (has_id id row)) [
    | inl hit ↦ ground (arith, hit)
    | inr miss ↦
        reload_apart rows (round row e) id (ground (arith, miss))
        ∙ round_apart row e id (λ same. ground (arith, eq_iff row.id id))
  ]

  reload_all_rows :
      (rows : List RuleRow) (e : Engine) (id : String)
      → AtMostOne (has_id id) rows
      → Cache.get id e.cache ≡ none
      → viewed (Cache.get id (reload lib (map of_row rows) e).cache)
        ≡ expected lib (find (has_id id) rows)
  unfolding reload find of_row
  reload_all_rows [] e id one new = ap viewed new
  reload_all_rows (row ∷ rows) e id one new = elim (same_or_apart id row.id) [
    | inl same ↦
        let hit = (eq_iff row.id id).1 (sym same) in
        ap viewed (reload_apart rows (round row e) id (one.0 hit))
        ∙ subst (λ i. viewed (Cache.get i (round row e).cache) ≡ expected lib (some row)) (sym same)
            (round_new row e (ap (λ i. Cache.get i e.cache) (sym same) ∙ new))
        ∙ sym (ap (λ b. expected lib (if b then some row else find (has_id id) rows)) hit)
    | inr ne ↦
        reload_all_rows rows (round row e) id one.1 (round_apart row e id ne ∙ new)
        ∙ sym (
            ap (λ b. expected lib (if b then some row else find (has_id id) rows))
              (ne_of row.id id ne))
  ]

  -- The start of the engine fills the cache: after `reloadAll` from an empty cache it is current.
  -- The database does not fail, and the ids of its rules are distinct.
  pub reload_all-IsCurrent :
      (e : Engine)
      → IsQuiet e.db
      → IsKeyed e.db.rules
      → e.cache ≡ []
      → ((reload_all lib e).0 ≡ ok tt) × IsCurrent lib (reload_all lib e).1
  unfolding reload_all on_store Rules.list
  reload_all-IsCurrent e quiet keyed empty = simp (query-quiet _ e.db quiet) (
    refl,
    λ id.
        reload_all_rows rows e id (sort_by-AtMostOne by_name (has_id id) e.db.rules (keyed id))
          (get-empty e.cache id empty)
        ∙ ap (expected lib) (
            find-sort_by by_name (has_id id) e.db.rules (keyed id)
            ∙ ap (λ db. find (has_id id) db.rules) (sym (reload-db rows e))),
  )
    where
      rows : List RuleRow
      rows = sort_by by_name e.db.rules

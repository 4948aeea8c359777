-- ===== src/Engine/Rows.antt =====
-- The cache after one rule's row is put in or written over, and the rule is compiled.
use signalwatch.Base.{
  Bool, true, false, String, List, [], ◌∷◌, ◌++◌, none, some, ◌≡◌, ◌≢◌, refl, sym, subst, ◌∙◌, ap,
  ap₂, inl, inr, arith, eq_iff, Bool-cases, if◌then◌else◌,
}
use signalwatch.Base.Keys.{eq_apart, ne_of}
use signalwatch.Base.Lists.{
  find, any, update_where, find-append_hit, find-append_miss, find-update_where_hit,
  find-update_where_miss, find-none, find_found, find_sound,
}
use signalwatch.Base.Result.{Result, Error, ok, err, pure, Result-cases}
use signalwatch.Base.Time.{Time}
use signalwatch.Rule.Condition.{Condition, Compiled, Libraries, compile}
use signalwatch.Rule.Model.{Rule}
use signalwatch.Store.Db.{Db, RuleRow}
use signalwatch.Store.Rules.{has_id, of_row, created_row, updated_row}
use signalwatch.Eval.Cache
use signalwatch.Eval.Cache.{Cache, CompiledRule}
use signalwatch.Engine.{Engine, on_cache, compile_and_cache, refresh, stamped, restamped}
use signalwatch.Engine.Current.{
  timeless, viewed, entry, expected, IsCurrent, set-Follows, delete-Follows, insert-Follows,
}

abbrev pub is_ok : {A : Type 0} → Result A → Bool
is_ok (ok a) = true
is_ok (err e) = false

-- The state after a write to the table of rules.
abbrev pub with_rules : List RuleRow → Db → Engine → Engine
with_rules rows db e = record e { db = record db { rules = rows } }

module _ (lib : Libraries) where
  -- The row of a new rule: found under its id, and nothing else changes.
  inserted :
      (now : Time) (r : Rule) (c : Condition) (rows : List RuleRow)
      → any (has_id r.id) rows ≡ false
      → (find (has_id r.id) (rows ++ created_row now r c ∷ []) ≡ some (created_row now r c))
        × ((j : String)
            → j ≢ r.id
            → find (has_id j) (rows ++ created_row now r c ∷ []) ≡ find (has_id j) rows)
  unfolding created_row find
  inserted now r c rows new = (
    find-append_hit _ _ rows new (ground (arith, eq_iff r.id r.id)),
    λ j ne. find-append_miss _ _ rows (ne_of r.id j ne),
  )

  -- The row of a rule that is written over: found under its id, and nothing else changes.
  pub updated :
      (now : Time) (r : Rule) (c : Condition) (rows : List RuleRow)
      → any (has_id r.id) rows ≡ true
      → ((row : RuleRow) × (row.id ≡ r.id)
          × (find (has_id r.id) (update_where (has_id r.id) (updated_row now r c) rows)
              ≡ some (updated_row now r c row)))
        × ((j : String)
            → j ≢ r.id
            → find (has_id j) (update_where (has_id r.id) (updated_row now r c) rows)
              ≡ find (has_id j) rows)
  unfolding updated_row
  updated now r c rows old =
      let (row, is) = find_found (has_id r.id) rows old in
      (
        (
          row,
          (eq_iff row.id r.id).0 (find_sound (has_id r.id) row rows is).1,
          find-update_where_hit (has_id r.id) (updated_row now r c) rows (λ x. refl) ∙ rw is,
        ),
        λ j ne. find-update_where_miss _ _ _ rows (λ x. refl) (λ x. eq_apart r.id j x.id ne),
      )

  pub compile_and_cache-ok :
      (r : Rule) (c : Condition) (k : Compiled) (e : Engine)
      → r.condition ≡ some c
      → compile lib c ≡ ok k
      → (compile_and_cache lib r e).1
        ≡ record e { cache = Cache.set (record { rule = r; compiled = k }) e.cache }
  unfolding compile_and_cache on_cache
  compile_and_cache-ok r c k e set good = rw (set, good)

  pub compile_and_cache-err :
      (r : Rule) (c : Condition) (x : Error) (e : Engine)
      → r.condition ≡ some c
      → compile lib c ≡ err x
      → (compile_and_cache lib r e).1 ≡ e
  unfolding compile_and_cache
  compile_and_cache-err r c x e set bad = rw (set, bad)

  -- What the row of a cached rule is expected to give.
  pub expected-row :
      (row : RuleRow) (r : Rule) (k : Compiled)
      → row.enabled ≡ true
      → timeless (of_row row) ≡ timeless r
      → compile lib row.condition ≡ ok k
      → expected lib (some row) ≡ viewed (some (record { rule = r; compiled = k }))
  expected-row row r k on same good =
      ap (λ b. entry b (timeless (of_row row)) (compile lib row.condition)) on
      ∙ ap₂ (λ x y. entry true x y) same good

  -- A rule with its new row, compiled where it is enabled.
  pub cached_new-IsCurrent :
      (now : Time) (r : Rule) (c : Condition) (e : Engine) (db : Db)
      → r.condition ≡ some c
      → any (has_id r.id) e.db.rules ≡ false
      → IsCurrent lib e
      → let st = with_rules (e.db.rules ++ created_row now r c ∷ []) db e in
        IsCurrent lib ((if r.enabled then compile_and_cache lib (stamped now r) else pure tt) st).1
  unfolding created_row of_row
  cached_new-IsCurrent now r c e db set new h = elim (Bool-cases r.enabled) [
    | inl on ↦ elim (Result-cases (compile lib c)) [
      | inl (k, good) ↦
          subst (IsCurrent lib)
            (sym (turn on ∙ compile_and_cache-ok (stamped now r) c k st set good))
            (set-Follows lib (record { rule = stamped now r; compiled = k }) e.db.rules rows e.cache
              h
              (ap (expected lib) here
                ∙ expected-row row (stamped now r) k on
                    (ap (λ o. timeless (record r { condition = o })) (sym set)) good)
              there)
      | inr (x, bad) ↦
          subst (IsCurrent lib)
            (sym (turn on ∙ compile_and_cache-err (stamped now r) c x st set bad))
            (left_out (
              ap (entry row.enabled (timeless (of_row row))) bad
              ∙ ap (λ b. entry b (timeless (of_row row)) (err x)) on))
    ]
    | inr off ↦
        subst (IsCurrent lib) (sym (turn off))
          (left_out (ap (λ b. entry b (timeless (of_row row)) (compile lib c)) off))
  ]
    where
      row : RuleRow
      row = created_row now r c

      rows : List RuleRow
      rows = e.db.rules ++ row ∷ []

      st : Engine
      st = with_rules rows db e

      here : find (has_id r.id) rows ≡ some row
      here = (inserted now r c e.db.rules new).0

      there : (j : String) → j ≢ r.id → find (has_id j) rows ≡ find (has_id j) e.db.rules
      there = (inserted now r c e.db.rules new).1

      turn :
          {b : Bool}
          → r.enabled ≡ b
          → ((if r.enabled then compile_and_cache lib (stamped now r) else pure tt) st).1
            ≡ ((if b then compile_and_cache lib (stamped now r) else pure tt) st).1
      turn on = ap (λ b. ((if b then compile_and_cache lib (stamped now r) else pure tt) st).1) on

      left_out : expected lib (some row) ≡ none → IsCurrent lib st
      left_out out =
          insert-Follows lib r.id e.db.rules rows e.cache h (find-none _ _ new)
            (ap (expected lib) here ∙ out) there

  -- A rule whose row is written over: it is compiled, or leaves the cache.
  pub refreshed-IsCurrent :
      (now : Time) (r : Rule) (c : Condition) (e : Engine) (db : Db)
      → r.condition ≡ some c
      → any (has_id r.id) e.db.rules ≡ true
      → (r.enabled ≡ true → is_ok (compile lib c) ≡ true)
      → IsCurrent lib e
      → let rows = update_where (has_id r.id) (updated_row now r c) e.db.rules in
        IsCurrent lib (refresh lib now r (with_rules rows db e)).1
  unfolding refresh on_cache updated_row of_row
  refreshed-IsCurrent now r c e db set old safe h = elim (Bool-cases r.enabled) [
    | inl on ↦ elim (Result-cases (compile lib c)) [
      | inl (k, good) ↦
          subst (IsCurrent lib)
            (sym (turn on ∙ compile_and_cache-ok (restamped now r) c k st set good))
            (set-Follows lib (record { rule = restamped now r; compiled = k }) e.db.rules rows
              e.cache h
              (ap (expected lib) here
                ∙ expected-row (updated_row now r c row) (restamped now r) k on
                    (ap₂ (λ i o. timeless (record r { id = i; condition = o })) same (sym set))
                    good)
              there)
      | inr (x, bad) ↦ absurd (refuted x bad (safe on))
    ]
    | inr off ↦ subst (IsCurrent lib) (sym (turn off)) (
        delete-Follows lib r.id e.db.rules rows e.cache h
          (ap (expected lib) here
            ∙ ap (λ b. entry b (timeless (of_row (updated_row now r c row))) (compile lib c)) off)
          there)
  ]
    where
      row : RuleRow
      row = (updated now r c e.db.rules old).0.0

      rows : List RuleRow
      rows = update_where (has_id r.id) (updated_row now r c) e.db.rules

      st : Engine
      st = with_rules rows db e

      same : row.id ≡ r.id
      same = (updated now r c e.db.rules old).0.1

      here : find (has_id r.id) rows ≡ some (updated_row now r c row)
      here = (updated now r c e.db.rules old).0.2

      there : (j : String) → j ≢ r.id → find (has_id j) rows ≡ find (has_id j) e.db.rules
      there = (updated now r c e.db.rules old).1

      turn :
          {b : Bool}
          → r.enabled ≡ b
          → (refresh lib now r st).1
            ≡ ((if b then compile_and_cache lib (restamped now r) else on_cache (Cache.delete r.id))
                st).1
      turn on =
          ap
            (λ b.
              ((if b then compile_and_cache lib (restamped now r) else on_cache (Cache.delete r.id))
                st).1)
            on

      refuted : (x : Error) → compile lib c ≡ err x → is_ok (compile lib c) ≡ true → ⊥
      refuted x bad good = ground (arith, bad, good)

-- ===== src/Engine/Current.antt =====
-- When the cache holds what the rules of the store compile to.
use signalwatch.Base.{
  Bool, true, false, String, List, Option, none, some, ◌≡◌, ◌≢◌, refl, sym, ◌∙◌, ap, inl, inr,
  arith, eq_iff,
}
use signalwatch.Base.Keys.{eq_apart, ne_of, same_or_apart}
use signalwatch.Base.Lists.{
  find, find-upsert_by_hit, find-upsert_by_miss, find-select_hit, find-select_miss,
}
use signalwatch.Base.Result.{Result, ok, err}
use signalwatch.Base.Time.{zero_time}
use signalwatch.Rule.Condition.{Compiled, Libraries, compile}
use signalwatch.Rule.Model.{Rule}
use signalwatch.Store.Db.{RuleRow}
use signalwatch.Store.Rules.{has_id, of_row}
use signalwatch.Eval.Cache
use signalwatch.Eval.Cache.{Cache, CompiledRule}
use signalwatch.Engine.{Engine}

-- A rule without the times of its row.
abbrev pub timeless : Rule → Rule
timeless r = record r { created_at = zero_time; updated_at = zero_time }

abbrev pub viewed : Option CompiledRule → Option CompiledRule
viewed none = none
viewed (some e) = some (record e { rule = timeless e.rule })

abbrev pub entry : Bool → Rule → Result Compiled → Option CompiledRule
entry false r k = none
entry true r (ok k) = some (record { rule = r; compiled = k })
entry true r (err x) = none

module _ (lib : Libraries) where
  -- What the cache should hold for a row: an enabled rule whose condition compiles.
  abbrev pub expected : Option RuleRow → Option CompiledRule
  expected none = none
  expected (some row) = entry row.enabled (timeless (of_row row)) (compile lib row.condition)

  -- The cache and the table say the same of every id, times aside.
  abbrev pub Follows : List RuleRow → Cache → Type 0
  Follows rows c = (id : String) → viewed (Cache.get id c) ≡ expected (find (has_id id) rows)

  -- The cache of the engine is current.
  abbrev pub IsCurrent : Engine → Type 0
  IsCurrent e = Follows e.db.rules e.cache

  -- A change at one id keeps the cache current where it agrees at that id afterwards.
  change-Follows :
      (id : String) (rows rows' : List RuleRow) (c c' : Cache)
      → Follows rows c
      → viewed (Cache.get id c') ≡ expected (find (has_id id) rows')
      → ((j : String)
          → j ≢ id
          → (Cache.get j c' ≡ Cache.get j c) × (find (has_id j) rows' ≡ find (has_id j) rows))
      → Follows rows' c'
  change-Follows id rows rows' c c' h here there j = elim (same_or_apart j id) [
    | inl e ↦ rw e here
    | inr ne ↦ ap viewed (there j ne).0 ∙ h j ∙ ap expected (sym (there j ne).1)
  ]

pub get-set_hit : (e : CompiledRule) (c : Cache) → Cache.get e.rule.id (Cache.set e c) ≡ some e
unfolding Cache.get Cache.set
get-set_hit e c =
    find-upsert_by_hit _ _ e c (λ x. refl) (ground (arith, eq_iff e.rule.id e.rule.id))

pub get-set_miss :
    (e : CompiledRule) (c : Cache) (j : String)
    → j ≢ e.rule.id
    → Cache.get j (Cache.set e c) ≡ Cache.get j c
unfolding Cache.get Cache.set
get-set_miss e c j ne =
    find-upsert_by_miss _ _ e c (λ x. eq_apart e.rule.id j x.rule.id ne) (ne_of e.rule.id j ne)

get-delete_hit : (id : String) (c : Cache) → Cache.get id (Cache.delete id c) ≡ none
unfolding Cache.get Cache.delete
get-delete_hit id c = find-select_hit _ c

get-delete_miss :
    (id j : String) (c : Cache) → j ≢ id → Cache.get j (Cache.delete id c) ≡ Cache.get j c
unfolding Cache.get Cache.delete
get-delete_miss id j c ne = find-select_miss _ _ c λ x. eq_apart id j x.rule.id ne

module _ (lib : Libraries) where
  -- A row put in or changed for a rule that is cached at once.
  pub set-Follows :
      (e : CompiledRule) (rows rows' : List RuleRow) (c : Cache)
      → Follows lib rows c
      → expected lib (find (has_id e.rule.id) rows') ≡ viewed (some e)
      → ((j : String) → j ≢ e.rule.id → find (has_id j) rows' ≡ find (has_id j) rows)
      → Follows lib rows' (Cache.set e c)
  set-Follows e rows rows' c h here there =
      change-Follows lib e.rule.id rows rows' c (Cache.set e c) h
        (ap viewed (get-set_hit e c) ∙ sym here) (λ j ne. (get-set_miss e c j ne, there j ne))

  -- A row removed, disabled or changed for a rule that leaves the cache.
  pub delete-Follows :
      (id : String) (rows rows' : List RuleRow) (c : Cache)
      → Follows lib rows c
      → expected lib (find (has_id id) rows') ≡ none
      → ((j : String) → j ≢ id → find (has_id j) rows' ≡ find (has_id j) rows)
      → Follows lib rows' (Cache.delete id c)
  delete-Follows id rows rows' c h here there =
      change-Follows lib id rows rows' c (Cache.delete id c) h
        (ap viewed (get-delete_hit id c) ∙ sym here)
        (λ j ne. (get-delete_miss id j c ne, there j ne))

  -- A row put in that does not count, the cache left as it is.
  pub insert-Follows :
      (id : String) (rows rows' : List RuleRow) (c : Cache)
      → Follows lib rows c
      → find (has_id id) rows ≡ none
      → expected lib (find (has_id id) rows') ≡ none
      → ((j : String) → j ≢ id → find (has_id j) rows' ≡ find (has_id j) rows)
      → Follows lib rows' c
  insert-Follows id rows rows' c h new here there =
      change-Follows lib id rows rows' c c h (h id ∙ ap (expected lib) new ∙ sym here)
        (λ j ne. (refl, there j ne))

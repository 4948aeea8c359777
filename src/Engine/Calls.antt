-- ===== src/Engine/Calls.antt =====
-- The calls of the rule API, and the cache after any sequence of them.
use signalwatch.Base.{
  Bool, true, not, String, List, [], ◌∷◌, ◌++◌, Option, none, some, ◌≡◌, refl, sym, ◌∙◌, ap, inl,
  inr, Bool-cases, Option-cases,
}
use signalwatch.Base.Keys.{eq_apart}
use signalwatch.Base.Lists.{any, select, update_where, find-select_hit, find-select_miss}
use signalwatch.Base.Result.{panic, err, Exec, Result-cases}
use signalwatch.Base.Time.{Time}
use signalwatch.Rule.Condition.{Condition, Libraries, compile}
use signalwatch.Rule.Model.{Rule, validate}
use signalwatch.Store.Db.{Db, fault, tick, exec, exec_checked}
use signalwatch.Store.Rules
use signalwatch.Store.Rules.{has_id, of_row, created_row, updated_row}
use signalwatch.Engine.{Engine, create, update, delete, on_store, on_cache}
use signalwatch.Engine.Current.{expected, IsCurrent, delete-Follows}
use signalwatch.Engine.Rows.{is_ok, cached_new-IsCurrent, refreshed-IsCurrent}

-- A call of the rule API.
pub data Call : Type 0 where
  create_rule : Rule → Call
  update_rule : Rule → Call
  delete_rule : String → Call

module _ (lib : Libraries) where
  unfoldable pub perform : Time → Call → Exec Engine (Unit {0})
  perform now (create_rule r) = create lib now r
  perform now (update_rule r) = update lib now r
  perform now (delete_rule id) = delete id

  abbrev pub compiles : Option Condition → Bool
  compiles none = true
  compiles (some c) = is_ok (compile lib c)

  -- An update is of a rule that is stored and, where it is enabled, of a condition that compiles.
  abbrev pub IsSafe : Call → Engine → Type 0
  IsSafe (create_rule r) e = Unit
  IsSafe (update_rule r) e =
      (any (has_id r.id) e.db.rules ≡ true) × (r.enabled ≡ true → compiles r.condition ≡ true)
  IsSafe (delete_rule id) e = Unit

  delete-IsCurrent : (id : String) (e : Engine) → IsCurrent lib e → IsCurrent lib (delete id e).1
  unfolding delete on_store on_cache Rules.delete exec
  delete-IsCurrent id e h = elim (Bool-cases (fault e.db.faults)) [
    | inl f ↦ rw f h
    | inr f ↦ rw f (
        delete-Follows lib id e.db.rules (select (λ r. not (has_id id r)) e.db.rules) e.cache h
          (ap (expected lib) (find-select_hit (has_id id) e.db.rules))
          (λ j ne. find-select_miss _ _ e.db.rules λ x. eq_apart id j x.id ne))
  ]

  -- What `Create` and `Update` of the store do with a rule that has a condition.
  pub store-create :
      (now : Time) (r : Rule) (c : Condition) (db : Db)
      → r.condition ≡ some c
      → Rules.create now r db
        ≡ exec_checked
            (λ db. not (any (has_id r.id) db.rules))
            (λ db. record db { rules = db.rules ++ created_row now r c ∷ [] })
            db
  unfolding Rules.create
  store-create now r c db set = rw set refl

  store-create-none :
      (now : Time) (r : Rule) (db : Db)
      → r.condition ≡ none
      → Rules.create now r db ≡ (err panic, db)
  unfolding Rules.create
  store-create-none now r db nil = rw nil refl

  store-update-none :
      (now : Time) (r : Rule) (db : Db)
      → r.condition ≡ none
      → Rules.update now r db ≡ (err panic, db)
  unfolding Rules.update
  store-update-none now r db nil = rw nil refl

  pub store-update :
      (now : Time) (r : Rule) (c : Condition) (db : Db)
      → r.condition ≡ some c
      → Rules.update now r db
        ≡ exec
            (λ db. record db { rules = update_where (has_id r.id) (updated_row now r c) db.rules })
            db
  unfolding Rules.update
  store-update now r c db set = rw set refl

  create-IsCurrent :
      (now : Time) (r : Rule) (e : Engine) → IsCurrent lib e → IsCurrent lib (create lib now r e).1
  unfolding create on_store exec_checked
  create-IsCurrent now r e h = elim (Result-cases (validate r)) [
    | inr (x, bad) ↦ simp bad h
    | inl (u, good) ↦ elim (Option-cases r.condition) [
      | inl nil ↦ simp (good, store-create-none now r e.db nil) h
      | inr (c, set) ↦ elim (Bool-cases (fault e.db.faults)) [
        | inl f ↦ simp (good, store-create now r c e.db set, f) h
        | inr f ↦ elim (Bool-cases (any (has_id r.id) e.db.rules)) [
          | inl old ↦ simp (good, store-create now r c e.db set, f, old) h
          | inr new ↦
              simp (good, store-create now r c e.db set, f, new)
                (cached_new-IsCurrent lib now r c e (tick e.db) set new h)
        ]
      ]
    ]
  ]

  update-IsCurrent :
      (now : Time) (r : Rule) (e : Engine)
      → IsSafe (update_rule r) e
      → IsCurrent lib e
      → IsCurrent lib (update lib now r e).1
  unfolding update on_store exec
  update-IsCurrent now r e safe h = elim (Result-cases (validate r)) [
    | inr (x, bad) ↦ simp bad h
    | inl (u, good) ↦ elim (Option-cases r.condition) [
      | inl nil ↦ simp (good, store-update-none now r e.db nil) h
      | inr (c, set) ↦ elim (Bool-cases (fault e.db.faults)) [
        | inl f ↦ simp (good, store-update now r c e.db set, f) h
        | inr f ↦
            simp (good, store-update now r c e.db set, f)
              (refreshed-IsCurrent lib now r c e (tick e.db) set safe.0
                (λ on. ap compiles (sym set) ∙ safe.1 on) h)
      ]
    ]
  ]

  -- Calls one after the other, each at its time, whatever they return.
  unfoldable pub run : List (Time × Call) → Engine → Engine
  run [] e = e
  run ((now, call) ∷ calls) e = run calls (perform now call e).1

  -- Each call is safe where it is made.
  abbrev pub AllSafe : List (Time × Call) → Engine → Type 0
  AllSafe [] e = Unit
  AllSafe ((now, call) ∷ calls) e = IsSafe call e × AllSafe calls (perform now call e).1

  perform-IsCurrent :
      (now : Time) (call : Call) (e : Engine)
      → IsSafe call e
      → IsCurrent lib e
      → IsCurrent lib (perform now call e).1
  unfolding perform
  perform-IsCurrent now (create_rule r) e safe h = create-IsCurrent now r e h
  perform-IsCurrent now (update_rule r) e safe h = update-IsCurrent now r e safe h
  perform-IsCurrent now (delete_rule id) e safe h = delete-IsCurrent id e h

  -- Over any calls of the rule API, failures of the database included, the cache stays current: for
  -- every id it holds the stored rule, times aside, with what its condition compiles to, exactly
  -- where the rule is enabled and its condition compiles. It starts current, and each update is of
  -- a stored rule and, where it enables the rule, of a condition that compiles.
  pub calls-IsCurrent :
      (calls : List (Time × Call)) (e : Engine)
      → AllSafe calls e
      → IsCurrent lib e
      → IsCurrent lib (run calls e)
  unfolding run
  calls-IsCurrent [] e safe h = h
  calls-IsCurrent ((now, call) ∷ calls) e safe h =
      calls-IsCurrent calls (perform now call e).1 safe.1 (perform-IsCurrent now call e safe.0 h)

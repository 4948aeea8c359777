-- ===== src/Engine.antt =====
-- engine/engine.go: the rule API, which writes the store and then keeps the cache of compiled rules
-- in step, and the start, which fills the cache.
pub mod Current
pub mod Rows
pub mod Calls
pub mod Divergence
pub mod Start
use signalwatch.Base.{String, Option, none, some, if◌then◌else◌, not, List, [], ◌∷◌}
use signalwatch.Base.Result.{Result, ok, err, Exec, pure, raise, panic, ◌>>=◌, ◌>>◌}
use signalwatch.Base.Time.{Time, is_zero}
use signalwatch.Rule.Condition.{Condition, Compiled, Libraries, compile}
use signalwatch.Rule.Model.{Rule, validate}
use signalwatch.Store.Db.{Db}
use signalwatch.Store.Rules
use signalwatch.Eval.Cache
use signalwatch.Eval.Cache.{Cache, CompiledRule}

-- The state of an engine that the rule API changes.
pub record Engine : Type 0 where
  pub db : Db
  pub cache : Cache

-- A call of the store.
unfoldable pub on_store : {A : Type 0} → Exec Db A → Exec Engine A
on_store m e = let (r, db') = m e.db in (r, record e { db = db' })

unfoldable pub on_cache : (Cache → Cache) → Exec Engine (Unit {0})
on_cache f e = (ok tt, record e { cache = f e.cache })

-- The rule as `Create` and `Update` of the store leave it, which is the one that is cached: both
-- write their times into it.
abbrev pub stamped : Time → Rule → Rule
stamped now r = record r {
  created_at = if is_zero r.created_at then now else r.created_at;
  updated_at = now;
}

abbrev pub restamped : Time → Rule → Rule
restamped now r = record r { updated_at = now }

abbrev pub check : Result (Unit {0}) → Exec Engine (Unit {0})
check r e = (r, e)

abbrev pub keep_compiled : Rule → Result Compiled → Exec Engine (Unit {0})
keep_compiled r (ok k) = on_cache (Cache.set (record { rule = r; compiled = k }))
keep_compiled r (err x) = raise x

module _ (lib : Libraries) where
  -- `compileAndCache`.
  unfoldable pub compile_and_cache : Rule → Exec Engine (Unit {0})
  compile_and_cache r = elim r.condition [
    | none ↦ raise panic
    | some c ↦ keep_compiled r (compile lib c)
  ]

  -- `ruleAPI.Create`.
  unfoldable pub create : Time → Rule → Exec Engine (Unit {0})
  create now r = do
    check (validate r)
    on_store (Rules.create now r)
    if r.enabled then compile_and_cache (stamped now r) else pure tt

  -- What `Update` does after the store: a disabled rule leaves the cache.
  unfoldable pub refresh : Time → Rule → Exec Engine (Unit {0})
  refresh now r =
      if r.enabled then compile_and_cache (restamped now r) else on_cache (Cache.delete r.id)

  -- `ruleAPI.Update`.
  unfoldable pub update : Time → Rule → Exec Engine (Unit {0})
  update now r = do check (validate r); on_store (Rules.update now r); refresh now r

-- `ruleAPI.Delete`.
unfoldable pub delete : String → Exec Engine (Unit {0})
delete id = do on_store (Rules.delete id); on_cache (Cache.delete id)

-- The answer is left to the log.
abbrev pub logged : Exec Engine (Unit {0}) → Engine → Engine
logged m e = (m e).1

module _ (lib : Libraries) where
  -- The loop of `reloadAll`: a rule that does not compile is left out.
  unfoldable pub reload : List Rule → Engine → Engine
  reload [] e = e
  reload (r ∷ rs) e = reload rs (if r.enabled then logged (compile_and_cache lib r) e else e)

  -- `reloadAll`.
  unfoldable pub reload_all : Exec Engine (Unit {0})
  reload_all = do rules ← on_store Rules.list; λ e. (ok tt, reload rules e)

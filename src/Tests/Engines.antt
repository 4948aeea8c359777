-- ===== src/Tests/Engines.antt =====
-- The engine's rule API and cache at small tables.
use signalwatch.Base.{true, false, ◌≡◌, refl, [], ◌∷◌, List, some}
use signalwatch.Base.Int.{pos}
use signalwatch.Base.Lists.{any, find}
use signalwatch.Base.Result.{ok, err, error}
use signalwatch.Base.Time.{Time}
use signalwatch.Rule.Condition.{Condition, Compiled, Libraries, Op, compile, mode}
use signalwatch.Rule.Model.{Rule, validate}
use signalwatch.Store.Db.{RuleRow, exec_checked}
use signalwatch.Store.Rules
use signalwatch.Store.Rules.{has_id, created_row, updated_row}
use signalwatch.Eval.Cache
use signalwatch.Engine.{
  Engine, create, update, reload_all, restamped, on_store, on_cache, compile_and_cache,
}
use signalwatch.Engine.Current.{IsCurrent}
use signalwatch.Engine.Calls.{
  Call, create_rule, update_rule, delete_rule, perform, run, AllSafe, calls-IsCurrent,
}
use signalwatch.Engine.Divergence.{update_of_missing, update_not_compiling}
use signalwatch.Engine.Start.{IsKeyed, reload_all-IsCurrent}
use signalwatch.Tests.Data.{empty_db, hot, hot_condition}

-- Every pattern and expression compiles.
abbrev pub lib : Libraries
lib = record { regexp_compiles = λ s. true; expr_compiles = λ s. true; trim_space = λ s. s }

abbrev pub blank : Engine
blank = record { db = empty_db; cache = [] }

-- The rule is created, written over, and deleted.
abbrev calls : List (Time × Call)
calls =
    (pos 1000000, create_rule hot)
    ∷ (pos 2000000, update_rule (record hot { name = "Hotter" }))
    ∷ (pos 3000000, delete_rule "cold")
    ∷ []

calls-AllSafe : AllSafe lib calls blank
unfolding perform create on_store Rules.create exec_checked any validate mode compile_and_cache
    compile on_cache Cache.set created_row
calls-AllSafe = (tt, ((refl, λ h. refl), (tt, tt)))

blank-IsCurrent : IsCurrent lib blank
unfolding Cache.get find
blank-IsCurrent id = refl

calls-IsCurrent_example : IsCurrent lib (run lib calls blank)
calls-IsCurrent_example = calls-IsCurrent lib calls blank calls-AllSafe blank-IsCurrent

abbrev hot_row : RuleRow
hot_row = record {
  id = "hot";
  name = "Too hot";
  description = "";
  enabled = true;
  severity = hot.severity;
  labels = [];
  input_ref = "events";
  condition = hot_condition;
  schedule_ns = pos 0;
  created_at = pos 0;
  updated_at = pos 0;
}

abbrev stored_engine : Engine
stored_engine = record { db = record empty_db { rules = hot_row ∷ [] }; cache = [] }

keyed : IsKeyed (hot_row ∷ [])
unfolding any
keyed id = (λ h. refl, tt)

reload_all-IsCurrent_example :
    ((reload_all lib stored_engine).0 ≡ ok tt) × IsCurrent lib (reload_all lib stored_engine).1
reload_all-IsCurrent_example = reload_all-IsCurrent lib stored_engine refl keyed refl

hot-compiles :
    compile lib hot_condition
    ≡ ok (Compiled.threshold (record { field = "t"; op = Op.gt; value = 0 }))
unfolding compile
hot-compiles = refl

hot-validates : validate hot ≡ ok tt
unfolding validate mode
hot-validates = refl

missing : any (has_id "hot") empty_db.rules ≡ false
unfolding any
missing = refl

update_of_missing_example :
    ((update lib (pos 5) hot blank).0 ≡ ok tt)
    × ((update lib (pos 5) hot blank).1.db ≡ empty_db)
    × (Cache.get "hot" (update lib (pos 5) hot blank).1.cache
        ≡ some (record {
          rule = restamped (pos 5) hot;
          compiled = Compiled.threshold (record { field = "t"; op = Op.gt; value = 0 });
        }))
update_of_missing_example =
    update_of_missing lib (pos 5) hot hot_condition
      (Compiled.threshold (record { field = "t"; op = Op.gt; value = 0 })) blank refl hot-validates
      refl refl hot-compiles missing

-- A condition with no field.
abbrev broken : Condition
broken = Condition.threshold (record { field = ""; op = Op.gt; value = 0 })

abbrev hot_broken : Rule
hot_broken = record hot { condition = some broken }

broken-validates : validate hot_broken ≡ ok tt
unfolding validate mode
broken-validates = refl

broken-compiles : compile lib broken ≡ err (error "threshold: field required")
unfolding compile
broken-compiles = refl

update_not_compiling_example :
    let (result, e) = update lib (pos 5) hot_broken stored_engine in
    (result ≡ err (error "threshold: field required"))
    × ((s : Rule) × ((Rules.get "hot" e.db).0 ≡ ok (some s))
        × (s.id ≡ "hot")
        × (s.condition ≡ some broken)
        × (s.enabled ≡ true))
    × (e.cache ≡ [])
unfolding any
update_not_compiling_example =
    update_not_compiling lib (pos 5) hot_broken broken (error "threshold: field required")
      stored_engine refl broken-validates refl refl broken-compiles refl

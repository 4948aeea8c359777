-- ===== src/Eval/Cache.antt =====
-- The cache of internal/eval/eval.go: the compiled rules by id. The map is a table with one entry
-- for each id; Go's order of iteration over it is not fixed, and nothing here depends on it.
use signalwatch.Base.{Bool, false, not, ◌&&◌, String, ◌==◌, List, Option, none, some}
use signalwatch.Base.Lists.{find, select, upsert_by}
use signalwatch.Rule.Condition.{Condition, Compiled, mode, is_scheduled}
use signalwatch.Rule.Model.{Rule}

pub record CompiledRule : Type 0 where
  pub rule : Rule
  pub compiled : Compiled

abbrev pub Cache : Type 0
Cache = List CompiledRule

abbrev pub has_rule : String → CompiledRule → Bool
has_rule id e = e.rule.id == id

-- `Set`.
unfoldable pub set : CompiledRule → Cache → Cache
set e c = upsert_by (has_rule e.rule.id) e c

-- `Delete`.
unfoldable pub delete : String → Cache → Cache
delete id c = select (λ e. not (has_rule id e)) c

-- `Get`.
unfoldable pub get : String → Cache → Option CompiledRule
get id c = find (has_rule id) c

-- `ByInput`: the enabled rules of an input.
unfoldable pub by_input : String → Cache → List CompiledRule
by_input ref c = select (λ e. e.rule.input_ref == ref && e.rule.enabled) c

-- Whether the condition is evaluated on a schedule. Only a rule with a condition is in the cache.
abbrev pub on_schedule : Option Condition → Bool
on_schedule none = false
on_schedule (some c) = is_scheduled (mode c)

-- `Scheduled`: the enabled rules with a scheduled condition.
unfoldable pub scheduled : Cache → List CompiledRule
scheduled c = select (λ e. e.rule.enabled && on_schedule e.rule.condition) c

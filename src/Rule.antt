-- ===== src/Rule.antt =====
-- internal/rule: the live state of a rule and its transitions (Rule/State), what the transitions
-- keep (Rule/Lifecycle), the condition types (Rule/Condition), and the rule itself (Rule/Model).
pub mod Wire
pub mod State
pub mod Lifecycle
pub mod Condition
pub mod Model

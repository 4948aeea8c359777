-- ===== src/Eval.antt =====
-- internal/eval: the cache of compiled rules, and the evaluators.
pub mod Cache
pub mod Scheduled
pub mod Window
pub mod Conditions
pub mod Push

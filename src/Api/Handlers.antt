-- ===== src/Api/Handlers.antt =====
-- The handlers behind the gates: internal/api/api.go and internal/api/tokens.go. A request is the
-- id of its path and what its body decodes to; a fresh id is what `uuid.NewString` gives.
pub mod Subscribers
pub mod Subscriptions
pub mod Reads
pub mod Tokens
pub mod Rules
pub mod Failures

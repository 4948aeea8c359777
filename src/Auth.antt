-- ===== src/Auth.antt =====
-- internal/auth: the tokens of the HTTP API.
pub mod Token

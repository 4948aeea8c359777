-- ===== src/Store/Postgres.antt =====
-- internal/store/postgres: the repositories over Postgres (Postgres/Db is the database), and what
-- they have in common with those over SQLite.
pub mod Db
pub mod Rules
pub mod Subscribers
pub mod Subscriptions
pub mod Incidents
pub mod Notifications
pub mod LiveStates
pub mod SubStates
pub mod Tokens
pub mod View
pub mod Refines

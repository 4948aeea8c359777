-- ===== src/Store.antt =====
-- internal/store/sqlite: the tables and statements (Store/Db) and the repositories over them.
pub mod Db
pub mod Failure
pub mod Migrate
pub mod Postgres
pub mod Mysql
pub mod LiveStates
pub mod SubStates
pub mod Incidents
pub mod Notifications
pub mod Subscribers
pub mod Subscriptions
pub mod Rules
pub mod Tokens

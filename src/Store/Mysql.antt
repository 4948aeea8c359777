-- ===== src/Store/Mysql.antt =====
-- internal/store/mysql: how its migration runs the scripts.
pub mod Migrate
pub mod Script
pub mod Trail
pub mod Outcome

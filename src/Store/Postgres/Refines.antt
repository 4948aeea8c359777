-- ===== src/Store/Postgres/Refines.antt =====
-- That the Postgres repositories do what the SQLite ones do: the tables that are the same
-- (Refines/Plain), the ones with texts that may be NULL (Refines/Nullable), the incidents with
-- their deletion (Refines/Purge), and all together (Refines/Stores).
pub mod Plain
pub mod Nullable
pub mod Purge
pub mod Stores

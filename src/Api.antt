-- ===== src/Api.antt =====
-- internal/api: the gates in front of the routes, the route table, and the handlers of the routes.
pub mod Gate
pub mod Routes
pub mod Access
pub mod Reply
pub mod Query
pub mod Handlers

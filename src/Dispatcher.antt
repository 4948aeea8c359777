-- ===== src/Dispatcher.antt =====
-- internal/dispatcher/dispatcher.go: the delivery of one notification (Dispatcher/Deliver), the
-- state machine of one subscription (Dispatcher/Subscription), and `Tick` (Dispatcher/Tick).
pub mod World
pub mod Deliver
pub mod Subscription
pub mod Tick

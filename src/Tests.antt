-- ===== src/Tests.antt =====
-- Concrete inputs, and the theorems of the development at them.
mod Data
mod Rules
mod Dispatch
mod Stores
mod Engines
mod Evals
mod Access
mod Handlers
mod Inputs
mod Drivers

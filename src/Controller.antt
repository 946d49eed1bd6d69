-- ===== src/Controller.antt =====
-- bridge/internal/controller: the one owner of the STM connection. Types and configuration are in
-- `Types`, commands in `Commands`, state and events in `State`, subscribers in `Subscribers`,
-- polling in `Polling`, and the queue of STM operations in `Scheduler`.
mod Bits
pub mod Types
pub mod Commands
pub mod State
pub mod Subscribers
pub mod Build
pub mod Run
pub mod Sessions
pub mod Polling
pub mod Scheduler
mod Frame
pub mod Lifecycle
pub mod Access

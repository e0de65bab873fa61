-- ===== src/Mu.antt =====
-- The scheduler that the thermostat tasks run on: src/mulib/mulib/core and platform.
pub mod Ring
pub mod Fifo
pub mod Spsc
pub mod Mqueue
pub mod Time
pub mod Deferred
pub mod Sched
pub mod Task
pub mod Timer
pub mod Str
pub mod Links
pub mod Queue
pub mod Log
pub mod Periodic
pub mod Access

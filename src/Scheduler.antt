-- ===== src/Scheduler.antt =====
-- internal/router/scheduler: the FIFO request scheduler.
pub mod Types
pub mod Park
pub mod Queue
pub mod Swaps
pub mod Admission
pub mod Preempt
pub mod Grace
pub mod KvWarm
pub mod Grant
pub mod Drain
pub mod Events
pub mod Setup
pub mod Conserve
pub mod Safety
pub mod Capacity
pub mod Pool
mod Examples

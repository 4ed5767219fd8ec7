-- ===== src/Process.antt =====
-- Processes: src/kernel/process/process.c and scheduler.c, with src/include/process.h.
pub mod State
pub mod Pool
pub mod Scheduler
pub mod Api
mod Tests

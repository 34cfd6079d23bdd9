-- ===== src/Runtime.antt =====
-- mininet_ai/runtime: the event bus, shared state, agent supervision, the run ledger and the continuous
-- runtime that schedules invocations.
pub mod Events
pub mod State
pub mod Supervision
pub mod Ledger
pub mod Continuous

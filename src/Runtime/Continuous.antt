-- ===== src/Runtime/Continuous.antt =====
-- mininet_ai/runtime/continuous.py: the dispatcher of `ContinuousAgentRuntime`, its bounded queues of
-- invocations, and the workers that take from them.
-- Each section with `_condition` held is one step, and so is each event that the dispatcher receives.
-- `J` stands for the JSON of a payload. Times are in microseconds. The texts of issues are left out.
-- The ids of the plan's agents are unique. The listeners of issues and of invocations are taken to
-- return: one that raises ends the thread that calls it, which is left out. The workers of a budgeted coordinator are not modelled.
pub mod Types
pub mod Enqueue
pub mod Dispatch
pub mod Steps
pub mod Queues
pub mod Quiet
pub mod Matching
pub mod Calls
pub mod Limits
pub mod Bounds
pub mod Offers
pub mod Items
pub mod Names
pub mod Fates
pub mod Tracing
pub mod Accounts
pub mod Sequences
pub mod Replay
mod Tests

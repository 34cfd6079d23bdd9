-- ===== src/Coordination.antt =====
-- mininet_ai/coordination: message delivery, conflict arbitration and action admission.
pub mod Channel
pub mod Admission
pub mod Graph
pub mod Arbitration
pub mod Slots
pub mod Commitment
pub mod Messages
pub mod Routing

-- ===== src/Agents.antt =====
-- mininet_ai/agents: decisions about the agents' action bundles.
pub mod Reconciliation

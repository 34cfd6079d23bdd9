-- ===== src/Capabilities.antt =====
-- mininet_ai/capabilities: the effects of capabilities.
pub mod Verification

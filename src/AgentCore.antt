-- ===== src/AgentCore.antt =====
-- crates/night24-agent-core/src: the agent process.
pub mod TaskList

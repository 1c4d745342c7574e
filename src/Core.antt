-- ===== src/Core.antt =====
-- crates/night24-core/src: messages, context management, permissions, sessions, the agent loop.
pub mod Glob
pub mod Model
pub mod ContextMgmt
pub mod Permission
pub mod Session
pub mod Agent

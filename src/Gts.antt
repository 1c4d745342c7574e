-- ===== src/Gts.antt =====
-- crates/night24-gts/src: the GoScript runtime.
pub mod Semver
pub mod Opcode
pub mod Chunk
pub mod Value
pub mod Environment
pub mod Globals
pub mod Ast
pub mod Evaluator
pub mod Compiler
pub mod Interp
pub mod Token
pub mod Lexer
pub mod Parser
pub mod StringLit

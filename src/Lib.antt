-- ===== src/Lib.antt =====
-- A model of Night24, an agent runtime with a script language, and theorems about it.
--
-- Parts. crates/night24-core holds the conversation (model.rs), what keeps it small
-- (context_mgmt.rs), who may call a tool (permission.rs), the sessions (session.rs) and the loop that
-- asks a model, runs its tools and stores the conversation (agent.rs), and the
-- patterns of its file search (tool_executor/filesystem.rs). crates/night24-agent-core keeps
-- the task list that the model edits through tools (task_list.rs). crates/night24-gts is the script
-- language: a lexer (lexer/token.rs, lexer/lexer.rs), a parser (parser/parser.rs), a tree-walker
-- (evaluator/expressions.rs, eval_core.rs, string_lit.rs), a compiler to bytecode
-- (bytecode/compiler.rs and its parts), the bytecode (bytecode/opcode.rs, chunk.rs, emit.rs), the
-- machine that runs it (bytecode/interp.rs, interp_helpers) and the versions of its module `semver`
-- (stdlib/modules/semver.rs).
--
-- Files.
--   Prelude, Text, Json: helpers; strings as lists of code points with their UTF-8 lengths, decimal
--     numbers, trimming and splitting; the calls of serde_json, a parameter.
--   Core/Model: crates/night24-core/src/model.rs.
--   Core/ContextMgmt: context_mgmt.rs, a function per method; the fields of the manager are a record.
--   Core/Permission: permission.rs, the policy map as an association list.
--   Core/Session: session.rs, the manager without a database; Session/Calls has one step per method.
--   Core/Agent: agent.rs. `run_turns` is the loop on the turns left, `run` is `Agent::run`; the
--     provider, `execute_tool`, new ids and the clock are functions on a state of the outside world.
--   Core/Glob: crates/night24-core/src/tool_executor/filesystem.rs, `glob_match`.
--   AgentCore/TaskList: crates/night24-agent-core/src/task_list.rs, `execute` and what it calls.
--   Gts/Semver: crates/night24-gts/src/stdlib/modules/semver.rs.
--   Gts/Token, Gts/Lexer: lexer/token.rs and lexer/lexer.rs. The cursor is the characters left; Readers
--     and Regexps have the readers, Operators the arms of `next_token`, Next `next_token` itself. Spans
--     says what a cursor passes over, Skipping, Literals, Quoted, Words, Arms and Table what each part
--     passes over, Places what `next_token` finds, Sources what all its calls find.
--   Gts/Parser: parser/parser.rs, the tokens that the parser holds, marks and rewinds to; Rewinding says
--     what speculation gives back, Syncing where recovery ends, Errors how many errors are kept.
--     Programs has the loop over statements; what parses a statement, but for the guard of an `if`
--     (parser/statements.rs), is an argument of it.
--   Gts/StringLit: evaluator/string_lit.rs, string literals; Quoting has a literal for every text,
--     Panics the texts whose value panics, Splitting the source and the flags of a regexp literal.
--   Gts/Opcode, Gts/Chunk: crates/night24-gts/src/bytecode/opcode.rs, chunk.rs and emit.rs, with the
--     object equality of object/value.rs and the position of ast/mod.rs.
--   Gts/Value, Gts/Environment: object/value.rs, the operators of evaluator/expressions.rs, and
--     object/environment.rs. The functions on `f64`, `in` and `instanceof` are parameters.
--   Gts/Globals: the standard globals that `interpret` sets when `println` is not a global: the names of
--     `register_globals` (evaluator/builtins.rs); the object behind a name is a parameter. Names says which
--     names are globals then.
--   Gts/Ast, Gts/Evaluator: ast/mod.rs and the tree-walker, for literals, names, operators,
--     conditionals, assignments to names, expression statements and declarations. A string literal is
--     the text of its token, as in the source; both it and the compiler call `eval_string_lit`.
--   Gts/Compiler: the compiler on the same part. Layout says where the code of an expression stands,
--     Emission and Jumps what an emission adds to a chunk, Agreement, Branches and Running what the
--     machine does there, Programs joins them; Total is about errors and panics, Assignments about
--     an assignment to a name.
--   Gts/Interp: the machine, `step` for `VmState::step` and `run` for its loop; the opcodes that this
--     part of the compiler does not emit are a parameter. Runs has its step relation.
--   Examples: runs at concrete inputs.
--
-- The agent loop calls `maybe_compact` on the conversation after each turn and writes the session
-- after its end; the session manager stores what it gets.
--
-- Conventions. A panic is `none`, an error is `err`, what a method changes through `&mut` comes back
-- beside its result. Times are numbers, ids and times are arguments or come from the world. `usize`
-- has 64 bits; casts and `wrapping` arithmetic are written out with `%`. The loop of the agent is
-- recursion on the turns left, the loop of the machine is recursion on a number of steps, for which
-- enough is given. A loop of the lexer runs for at most as many rounds as characters are left, and
-- each of its rounds takes one; `sync` of the parser for at most as many as tokens can come before
-- the end of the source; the loop that unescapes a text for at most its length. The loop over the
-- statements of a program has a number of rounds as an argument, since it need not end. All other
-- loops are recursion on lists; the digits of a number n are printed on fuel n + 1, which its
-- number of digits does not exceed.
--
-- Not modelled. SQL storage, HTTP providers and servers, processes and files are I/O. The security
-- inspector, the parsing of expressions, statements and types, templates and compiled regexps, control
-- flow, functions, classes and modules of scripts, time limits, the wire protocol and the desktop
-- shell are not covered yet.
mod Prelude
pub mod Text
pub mod Json
pub mod Core
pub mod AgentCore
pub mod Gts
mod Examples

-- ===== src/Lib.antt =====
-- EdgeClaw, a personal agent server in Rust: a model of its core and of what makes it correct.
--
-- The parts, and how they interact. A turn begins with a user's message at the server
-- (crates/edgeclaw-server/src/agent.rs, Turn.antt). It loads the user's messages, soul and skills from
-- SQLite (Database.antt), composes the system prompt from the soul (crates/agent-core/src/soul.rs,
-- Soul.antt, with one file below it for each trait), and builds the registry of the skills' MCP clients
-- (crates/skill-registry/src/lib.rs, Skills.antt; crates/mcp-client/src, Mcp.antt). The agent loop
-- (crates/agent-core/src/agent.rs, Agent.antt) asks the model through the client of
-- crates/agent-core/src/llm.rs (Llm.antt). The server runs it without an executor: the agent returns the
-- model's tool calls, the server checks each by the permission chain
-- (crates/agent-core/src/permissions.rs, Permissions.antt), asks the client where the chain wants it,
-- executes the call by the built-in tools or a skill
-- (crates/edgeclaw-server/src/builtin_executor.rs, Executor.antt), and resumes the agent with the results.
-- `handle_approval` (Turn/Approval.antt) does the same for calls that wait in a table.
--
-- The tokens of the skills' providers are kept encrypted (crates/credential-store/src, Credentials.antt,
-- with the cryptography of crypto.rs in Credentials/Crypto.antt and `load_and_refresh` in
-- Credentials/Refresh.antt); they come from OAuth flows (crates/edgeclaw-server/src/oauth.rs, OAuth.antt, with the
-- requests to the token endpoints in OAuth/Exchange.antt).
--
-- The HTTP handlers (crates/edgeclaw-server/src/handlers.rs) are in Handlers.antt and the files below it: souls and
-- their generation by the model, tasks and their limit, skills, the history with the messages and the approvals,
-- the pages in HTML, and the callback of OAuth that puts exchange and storage together. They call the turns,
-- the stores and the registry of the other files. The WebSocket of handlers.rs and session.rs, with the requests for
-- approval that wait in a session, is Session.antt.
--
-- The built-in tools are in Tools.antt and below: file_read, file_edit, file_write, glob, grep and bash
-- (crates/agent-core/src/builtins), and those of a user's facts (crates/edgeclaw-server/src/builtins/memory.rs).
-- The scheduler (crates/edgeclaw-server/src/scheduler.rs, Scheduler.antt) starts turns without a session.
-- The command line (crates/edgeclaw-cli/src) keeps a configuration: its sections are in Cli/Config.antt, its file
-- in Cli/Config/File.antt, and the commands that change it in Cli/Config/Edits.antt.
--
-- How code corresponds to the model. Functions and types keep their names. Types.antt has the values that
-- the parts exchange (crates/agent-core/src/types.rs, error.rs, tools.rs), Json.antt serde_json's `Value`,
-- Prelude/Text.antt the operations of Rust's `str` on lists of characters, Prelude/Int.antt the type `i64`.
-- Everything outside is a value that the operations pass on: `W` is its state, and Host.antt says what is
-- asked of it (HTTP, serde_json of requests and answers, `join_all`). `Mcp.Codec`, `Skills.ToolsJson` and
-- `Database.Json` are serde_json at other types, `Credentials.Outside` and `Crypto.Primitives` the clock, the
-- cryptography and the token provider. The theorems name what they need of these as hypotheses.
-- An async function is an action on the state; what others do across a wait is in the outside state.
-- A mutable client of the registry is passed on as a value.
--
-- Bounds and fuel. The agent loop is a recursion on the iterations that are left, as in the code. The loop
-- of a turn has no bound in the code; `turn_loop` counts rounds, and is `none` where they do not suffice
-- (Turn/Rounds/Ends.antt has a number that suffices where a rank bounds how often the model asks for tools).
-- `last_piece` and `decimal` have fuel by the length and the value, which suffices for each. `count` of
-- Tools/FileEdit.antt has the length plus one, and a text has no more matches than that.
--
-- Not modelled: the routing and start-up of the server (server.rs, startup.rs, main.rs), the pumps of a
-- WebSocket as concurrent tasks, and of the command line the wizard, the prompts, the editor, the listing of
-- values, the chat, the commands of souls and the parsing of arguments, which are terminal I/O and requests.
-- Statements on SQLite succeed; a failed one is not modelled. A response body is the text that it decodes to.
-- `to_lowercase` is that of the characters whose lower case has an ASCII letter in it.
pub mod Prelude
pub mod Json
pub mod Types
pub mod Permissions
pub mod Host
pub mod Llm
pub mod Agent
pub mod Soul
pub mod Mcp
pub mod Skills
pub mod Database
pub mod Executor
pub mod Turn
pub mod Credentials
pub mod OAuth
pub mod Scheduler
pub mod Tools
pub mod Cli
pub mod Session
pub mod Handlers
pub mod Fixtures

-- ===== src/Lib.antt =====
-- agentrun-openai: an OpenAI-compatible HTTP gateway over coding agents that speak ACP.
--
-- A request for a chat completion names a model, which the catalog resolves to an engine and a backend
-- model. The session under the request's key keeps an agent's process, the transcript that the agent
-- knows and, for tools of the client, a turn that waits between two HTTP exchanges. The gateway
-- compares the request's messages with the transcript, tells the agent what is new, streams what the
-- agent says, and saves what it needs to resume the session after a restart.
--
-- The files, and the code that they are about:
--   Prelude         Go strings as code points, maps with string keys, lists and tests.
--   Types           internal/gateway/types.go and tools.go: roles, tool calls, transcript messages,
--                   errors, tool_choice; `reflect.DeepEqual` as `message_eq`.
--   Json            JSON values, and `canonicalJSON` of internal/gateway/tools.go with its encoder;
--                   Json/Struct is how encoding/json fills the small structs of that file.
--   Stream          internal/gateway/stream.go: the collector, its chunks, the heartbeat and the end of
--                   a stream. Stream/Run is what may happen to it, the proofs stand in Content,
--                   Reasoning, Blocks, Close and Silence.
--   Turn            internal/gateway/active_turn.go: pending calls, `deliver`, `resolve`, `emit` and
--                   `cancel`; Turn/Steps is the step relation of all of them.
--   Backend         internal/gateway/acp_backend.go: both formats of a backend specification.
--   Models          internal/gateway/server.go, `groupedBracketRoutes`, `selectReasoningEffort`,
--                   `resolveModel`, `discoverModels`, and the list of `handleModels`
--                   (Models/Objects).
--   Tools           internal/gateway/tools.go, `normalizeTools`: the tools of a request in order, their
--                   hash and the policy of its tool_choice (Tools/Selection).
--   Messages        internal/gateway/history.go, `normalizeMessages` and `textContent`.
--   History         internal/gateway/history.go: `hasPrefix`, `systemPrompt`, `turnPrompt`.
--   Session         internal/gateway/registry.go and session_store.go: a session, `stop`, the
--                   comparison of histories, the registry with its janitor, the store and its file.
--                   Session/Contract is what the store promises, as two maps.
--   Chat            internal/gateway/server.go, `handleChat` from the session's lock on and
--                   `clearSession`; Chat/Exchange is the handler, in the order of the source. Lost
--                   processes and native sessions are in Chat/Lost, Chat/Resumed
--                   and Chat/Rerun.
--   ToolChat        internal/gateway/tool_chat.go: the entry of `handleToolChat`, its loop
--                   (ToolChat/Select), its ends and the goroutine that watches a turn
--                   (ToolChat/Ending).
--   Facade          internal/gateway/mcp_facade.go: the server through which an agent calls the client's
--                   tools; Facade/Bridge is internal/mcpbridge/bridge.go, the agent's subprocess.
--   Server          internal/gateway/server.go: authorization and the checks of a request in front of
--                   the session's lock, with its tools and messages made normal, and the choice of
--                   its handler; `New`, `Close` and the janitor (Server/Lifetime, with what it does to
--                   a session in Server/Janitor). Server/Handling is a request as a whole.
--   Command         cmd/agentrun-openai/main.go: environment, flags (Command/Flags), lists and roots, and
--                   what `run` checks before it serves.
--
-- How state and operations correspond: a struct is a record with the source's fields, a method is a
-- function from the old state to the new one, with an error beside it where the source returns one. A
-- method under a mutex is one step. The handlers take the session, the store and the effects on
-- processes, facades and turns so far as one `World`, and return it with the reply.
--
-- Choices of the model. Strings are lists of code points, so a string that is no UTF-8 is outside it.
-- Texts of JSON inside a request (schemas, arguments, contents, tool_choice) are texts, read by the
-- parameter `decode`, the decoder of encoding/json; other JSON payloads are the values that they
-- encode. Times are arguments, in nanoseconds. An `int` that is
-- computed with is kept as its 64-bit pattern. Iteration over a map is in the order of its list, which
-- is any order. Paths are those of Unix. An error is kept as its format and arguments; where the source
-- asks for its text (`isMissingNativeSession`), the text is a parameter. `transcriptHash`, SHA-256 over
-- JSON, is the parameter `hash`; where a collision would matter, the transcript in question is assumed
-- to have a fingerprint that no other has. The agent (package agentrun) is the
-- arguments of `Agent` and `ToolAgent`: what a start returns, the messages and the error of a turn.
-- A write of the store that fails is a `Fault` at one of its steps. What the bridge reads of a result is
-- cut at 4 MiB of its JSON, as in the source. Stopping a process and waiting for a turn are effects that
-- take no time: the seconds that `stop` may block are outside, and so are the ticks that the ticker of the
-- janitor drops meanwhile; the janitor is modelled on any list of ticks. An error of the collector
-- inside a turn is not tied to the error that the turn returns, which may be any. All loops are recursive on lists;
-- there is no fuel.
--
-- Not modelled: the decoding of the body of a request; package mcp, the HTTP transport and the goroutine
-- of internal/mcpbridge that watches the gateway; the listeners and signals of cmd/agentrun-openai;
-- logging. What the loop of a turn with tools waits for is a list of wakes, so how long it waits is
-- outside the model.
pub mod Prelude
pub mod Types
pub mod Json
pub mod Stream
pub mod Turn
pub mod Backend
pub mod Models
pub mod Tools
pub mod History
pub mod Messages
pub mod Session
pub mod Chat
pub mod ToolChat
pub mod Facade
pub mod Server
pub mod Command

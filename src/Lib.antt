-- ===== src/Lib.antt =====
-- The voice-dialogue core of the xiaozhi server, internal/audio and internal/session, with the
-- clients of the models in internal/ai, the configuration of internal/config, the tables of
-- internal/database and the redaction of internal/logger.
--
-- A device opens a WebSocket, says hello, and then holds turns: it sends Opus audio while the session
-- listens, the session feeds the decoded PCM to a speech recogniser, sends the recognised text to a language
-- model, and speaks the answer as Opus packets. One goroutine per session, the supervisor, handles events
-- one at a time; other goroutines post events to it, write to the socket, feed the recogniser and speak.
--
-- Parts and files (file: code; functions keep the Go names, in snake case):
-- - Audio/Framer: `PCMFramer` of internal/audio/encoder.go. Framer/Cut and Framer/Laws: what `Feed` and
--   `Flush` cut; Framer/Stream: whole streams.
-- - Audio/Encoder (Laws): `Encoder` and `StreamEncoder` of the same file; Audio/Decoder:
--   internal/audio/decoder.go; Audio/Errors: their errors.
-- - Audio/AsrQueue (Laws): `ASRAudioQueue` of internal/audio/queue.go.
-- - Session/Limiter: `SessionLimiter` of internal/session/limiter.go.
-- - Session/Registry (Laws): internal/session/registry.go and the device key of session.go.
-- - Session/Auth (Limits, Laws): internal/session/auth.go, the checks before an upgrade.
-- - Session/Handler (Laws): internal/session/handler.go, one request from its path to the end of its
--   session, through the checks, the registry and the limiter.
-- - Session/Orchestration: `orchestrateLLMAndTTS` of internal/session/orchestration.go, up to its loop over a
--   reply; Orchestration/Pipeline: the rest of it. Orchestration/Outputs and Order: the order of
--   what it does; Spoken and Reply: what is spoken; Success: that it ends well. Orchestration/Pcm (Laws, Content):
--   `consumeTTSPCM`.
-- - Session/Mcp: the tool calls of internal/session/mcp.go; Mcp/Requests: `sendMCPRequest` and
--   `handleIncomingMCP`, with Mcp/Matching for the proofs; Mcp/Discovery: `discoverMCPTools`.
-- - Session/Pacer: `DownlinkPacer` of internal/session/pacer.go. Pacer/Events: what may happen to it;
--   Pacer/Shape, Order and Finish: what the writer gets, in which order, and that the turn ends.
-- - Session/Splitter (Loop, Shape, Laws): internal/session/splitter.go.
-- - Session/Writer (Laws): internal/session/writer.go.
-- - Session/Message, with Hello, Parse, Parse/Clean and TextLaws: message.go, hello.go and server_message.go.
-- - Session/History: `AppendHistory` and `buildLLMMessages` of internal/session/orchestration.go.
-- - Session/Core: the supervisor of internal/session/session.go. Core.antt has the state `Session` and the
--   events; Core/Effects, Close, Turns and Handlers the handlers; Core/Machine `handleEvent` and
--   `supervisorLoop`; Core/Background the steps of other goroutines. Machine/Invariant, Machine/Diagram,
--   Machine/Stale, Closing, Memory and Runs hold the proofs.
-- - Ai/LlmStream (Grouping, Laws): `bailianLLMStream` of internal/ai/bailian/llm.go, from its chunks on.
-- - Ai/Task: what the speech clients of internal/ai/bailian share, the messages of a task and its opening.
-- - Ai/TtsStream: `TTSStream` of internal/ai/bailian/tts.go, its loop and timers; TtsStream/Calls its calls
--   and the steps of a run. Delivery, Ending, Requests and Failing hold the proofs.
-- - Ai/AsrStream: `ASRStream` of internal/ai/bailian/asr.go; AsrStream/Calls its calls. Runs and Words hold the
--   proofs.
-- - Ai/Clients (Ready): the constructors of the three clients; Clients/Request: the request of llm.go.
-- - Session/Readers: `readLoop`, the readers of a recognition's result and the Post functions of
--   internal/session/session.go. Readers/Loop: what is posted; Readers/Results: the reader of a manual turn
--   with the ASR stream.
-- - Config (Settings, Bounds, Checks, Plain, Laws): `Validate` of internal/config/config.go and the bounds
--   it keeps.
-- - Database (Laws): what the tables of internal/database share, over gorm. Database/AccessToken, Activation,
--   Credential and UserRef: device_access_token.go, device_activation.go, device_hmac_credential.go and
--   device_user_ref.go; their Laws, Blocked and Binding hold the proofs.
-- - Logger (Laws): internal/logger/logger.go.
-- - Prelude (Tests, Lists, Sublists, Int): what the parts share.
-- - Audio/Tests, Config/Tests, Database/Tests, Logger/Tests, Session/Tests, the Tests of Ai/LlmStream, Ai/TtsStream,
--   Ai/AsrStream and Ai/Clients, and those of Readers, Mcp, Auth, Handler, Pacer,
--   Orchestration, Registry and Core: the theorems at concrete inputs.
--
-- How the code corresponds. A mutable object is a record that operations take and return. A call that can
-- fail returns its error as a value. A channel is its backlog with its capacity; a goroutine that loops
-- over one is a function for one round, and a run is a list of rounds and calls in any order. Where
-- `select` may choose, the choice is an argument. A handler of the supervisor is one step, though it takes
-- the mutex several times; a `Close` of another goroutine, which in the program may cut into it, comes before
-- or after it here. What a handler does outside the session is appended to `effects`. A context
-- that a turn can cancel is the number of its generation; in the supervisor a stream, the pacer and a
-- goroutine are handles or Booleans. A goroutine of a turn counts the checks that still find its turn
-- going.
--
-- Parameters. libopus is the argument of the encoder and the decoder, SHA-256 that of the upgrade's checks,
-- `url.Parse` that of the configuration's and the clients', gorm that of the tables, by the laws of a
-- table with a unique serial number, with the database's own comparison of texts, `strings.ToLower` that of the log; `json.Unmarshal`, the streams of the models, the ticker, the
-- random session id and the connection's answers are arguments or fields of a `World` or a `Round`.
--
-- Bounds and fuel. The generation wraps at 2^64 as `uint64` does; the settings that are validated are
-- integers, other numbers are natural, and a setting that is not positive is 0. The loops of the splitter
-- and of the framer run on fuel, one more than the length of the buffer; each round takes one rune or
-- frame at least, so the fuel does not run out.
--
-- Not modelled: the text of the log and its rate limiter, which computes with floating-point numbers; the
-- JSON text; time, except that timers and ticks may come at any moment; the capacity of the event channel;
-- the upgrade of a connection; dialling a service and the random task id; reading the configuration's file
-- and environment; opening and migrating the database; the OTA router; the start and stop of the process.
pub mod Prelude
pub mod Audio
pub mod Ai
pub mod Session
pub mod Config
pub mod Database
pub mod Logger

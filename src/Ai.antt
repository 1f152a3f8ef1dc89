-- ===== src/Ai.antt =====
-- The clients of the models: internal/ai.
pub mod AsrStream
pub mod Clients
pub mod LlmStream
pub mod Task
pub mod TtsStream

-- ===== src/Session.antt =====
-- The WebSocket session: internal/session.
pub mod Limiter
pub mod Readers
pub mod Registry
pub mod Splitter
pub mod Writer
pub mod Message
pub mod Auth
pub mod History
pub mod Handler
pub mod Core
pub mod Pacer
pub mod Mcp
pub mod Orchestration
mod Tests

-- ===== src/Audio.antt =====
-- The audio path: internal/audio.
pub mod Framer
pub mod AsrQueue
mod Tests
pub mod Errors
pub mod Encoder
pub mod Decoder

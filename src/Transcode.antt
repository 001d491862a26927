-- ===== src/Transcode.antt =====
-- internal/transcode: on-demand segments, produced by encoders that run ahead of playback.
pub mod Segment
pub mod AudioSelect
pub mod Ladder
pub mod Variant
pub mod Session
pub mod TailBuffer
pub mod Resolve
mod Tests

-- ===== src/Media.antt =====
-- internal/mediafs: the media folder as it is served.
pub mod Page
mod Tests

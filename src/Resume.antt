-- ===== src/Resume.antt =====
-- Taking up a live session again after a reload or a lost connection, of
-- .github/skills/impeccable/scripts/live-browser.js: the phases of a generation, the summaries that
-- the server sends, what the page remembers of a session, and the restore without a wrapper.
pub mod Phase
pub mod Summary
pub mod Meta
pub mod Restore
pub mod Adopt
pub mod Restored
mod Tests

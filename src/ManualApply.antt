-- ===== src/ManualApply.antt =====
-- Applying the copy edits that a user has staged, of
-- .github/skills/impeccable/scripts/live-browser.js: what is stored of a running apply, the dock
-- that shows it, and the messages of the server that move it.
pub mod Stored
pub mod Dock
pub mod Events
pub mod Progress
pub mod Invariant
pub mod Freeze
pub mod Repair
mod Tests

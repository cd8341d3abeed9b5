-- ===== src/Session.antt =====
-- .github/skills/impeccable/scripts/live-browser-session.js: what a page keeps in its storage.
pub mod Store
pub mod State
pub mod Revision
pub mod Handled
mod Tests

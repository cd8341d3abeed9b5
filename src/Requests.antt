-- ===== src/Requests.antt =====
-- The requests of .github/skills/impeccable/scripts/live-browser.js to its server: Gate is the order
-- in which they go out, Response what an answer comes to, Checkpoint the reports on a session.
pub mod Gate
pub mod Response
pub mod Checkpoint
pub mod Revisions
pub mod Rising
pub mod Order
mod Tests

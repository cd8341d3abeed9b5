-- ===== src/Live.antt =====
-- The life of a session in .github/skills/impeccable/scripts/live-browser.js: from Go over the
-- messages of the server to Accept or Discard. State is the state with its common steps, Accept the
-- clicks and the answers of their requests, Messages what the server sends.
pub mod State
pub mod Accept
pub mod Messages
pub mod Accepting
pub mod Late
pub mod Connection
mod Tests

-- ===== src/Pick.antt =====
-- The picking of elements in .github/skills/impeccable/scripts/live-browser.js: what a click, a move
-- of the pointer, a key and the two tools of the bar do to what is selected. State is the state with
-- the steps that the handlers share, Tools the toggles, Pointer the mouse, Keys the keyboard, Run all
-- of them.
pub mod State
pub mod Steps
pub mod Tools
pub mod Pointer
pub mod Keys
pub mod Run
pub mod Untouched
pub mod Exclusive
pub mod Kept
pub mod Ended
pub mod Unsaved
pub mod Texts
pub mod Stranded
pub mod Busy
pub mod Save
pub mod Sent
mod Tests

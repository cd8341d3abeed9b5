-- ===== src/Annot.antt =====
-- The annotations of .github/skills/impeccable/scripts/live-browser.js: pins and strokes on the
-- element that is configured. State is what is drawn and edited, Pointer the pointer's handlers.
pub mod State
pub mod Pointer
pub mod Escape
pub mod Drag
pub mod Shift
mod Tests

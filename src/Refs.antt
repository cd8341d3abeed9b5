-- ===== src/Refs.antt =====
-- The references to elements that copy edits carry, in
-- .github/skills/impeccable/scripts/live-browser.js: Document prints the reference of an element,
-- Query finds the element of a reference.
pub mod Document
pub mod Query
pub mod Decimal
pub mod Lexing
pub mod Segments
pub mod Way
pub mod Parts
pub mod Found
mod Tests

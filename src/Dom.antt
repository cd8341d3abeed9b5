-- ===== src/Dom.antt =====
-- The helpers of .github/skills/impeccable/scripts/live-browser-dom.js: Elements says which elements are
-- of the tool, can be picked and stay as an anchor, Lookup how elements of the tool are found.
pub mod Elements
pub mod Lookup
pub mod Picking
mod Tests

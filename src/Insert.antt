-- ===== src/Insert.antt =====
-- Insert mode of .github/skills/impeccable/scripts/live-browser.js: where a new element goes.
-- Lengths are integers that count 64ths of a CSS pixel, the unit in which browsers lay out.
pub mod Axis
pub mod Geometry
pub mod Gap
pub mod Placeholder
pub mod Rows
pub mod Hits
pub mod Resize
mod Tests

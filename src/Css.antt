-- ===== src/Css.antt =====
-- How .github/skills/impeccable/scripts/live-browser.js reads CSS that it scopes to a variant.
-- Scan is the splitting of a list of selectors and the search for a closing brace, Parts the splitting
-- without indices, and Passes the scan over a selector.
pub mod Scan
pub mod Parts
pub mod Lists
pub mod Passes
pub mod Selectors
pub mod Braces
mod Tests

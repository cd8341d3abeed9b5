-- ===== src/Markdown.antt =====
-- The markdown of the design panel in .github/skills/impeccable/scripts/live-browser.js. Inline is
-- inlineMd with escapeHtml, Lists buildListHtml, Blocks renderMarkdown.
pub mod Inline
pub mod Lists
pub mod Blocks
pub mod Escaped
pub mod Balanced
pub mod Fuel
pub mod Order
mod Tests

-- ===== src/Ignores.antt =====
-- .github/skills/impeccable/scripts/live-browser-ignores.js: which findings of a scan the project
-- waives on a page. Glob is the compiler of globs, Page the paths that a page may be known by, and
-- Resolve the resolver.
pub mod Glob
pub mod Page
pub mod Resolve
pub mod Fuel
pub mod Globs
pub mod Candidates
pub mod Named
pub mod Waivers
mod Tests

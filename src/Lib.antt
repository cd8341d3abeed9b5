-- ===== src/Lib.antt =====
-- Verification of the live mode of .github/skills/impeccable/scripts, the script that is injected
-- into a page so that its elements can be picked, sent to an agent and compared in variants. The
-- definitions are translated from the JavaScript, a function each, in the names of the source; the
-- lemmas and theorems about them stand in modules of their own.
--
-- The parts and their files:
--   Insert: live-browser.js 1676-1932, where a new element goes between siblings and how its
--     placeholder is resized. Axis (detectInsertAxisFromStyle), Geometry (groupSiblingRows,
--     computeInsertPosition, insertLineCoords), Gap (hitSiblingInsertGap, resolveInsertHover),
--     Placeholder (placeholderSizing, clampPlaceholderSize, resizePlaceholderFromEdge).
--   Session: live-browser-session.js, the session in the browser's storage, its checkpoint revision
--     and the handled ids. Store is the storage, which may throw and may lose a write.
--   Json: the values that JSON.parse gives the session store.
--   ManualApply: live-browser.js 3872-4346, the dock that applies copy edits. Stored is the progress
--     in the storage, Dock the buttons and labels, Events the messages and the answers of requests.
--   Resume: live-browser.js 144-165, 5017-5023 and 8975-9260, which takes up a live session after a
--     reload. Phase, Summary, Meta and Restore follow the source's functions.
--   Live: live-browser.js 7121-7350, 7772-7848, 8700-8800, 8915-8970 and 9263-9350, the life of a
--     session. State is the state with the steps that are shared (setLiveState, saveSession, cleanup),
--     Accept handleGo, handleAccept and handleDiscard, Messages connectSSE and handleServerLost.
--     It keeps the session store as its contents, and takes up sessions by Resume.
--   Requests: live-browser.js 7352-7394 and 7405-7454, sendEvent and the checkpoints. Gate is the
--     promise that the session's requests wait for, as a step relation in which requests, answers and
--     reactions come in any order; Response is what an answer comes to; Checkpoint is
--     checkpointPayload with its senders, on a store that Rising fills with the session store. What
--     the senders hand to sendEvent is listed in the order of the calls: the gate may let it go out
--     in another one.
--   Annot: live-browser.js 427-440, 518-556, 593-780 and 825-893, pins and strokes on the element
--     that is configured. State holds annotState and the editing of a pin, Pointer onAnnotDown,
--     onAnnotMove and onAnnotUp. A handler that throws says so in its result.
--   Pick: live-browser.js 1952-2050, 2092-2290, 2995-3030, 3360-3580, 3744-3812, 7458-7770, 7845-7856,
--     9712-9760 and 11635-11682, how elements are picked, configured and edited. State holds the
--     variables, Steps what the handlers share, Tools the toggles, Pointer handleMouseMove and
--     handleClick, Keys handleKeyDown, Save applyEditing, Run all events. Elements are numbers, and
--     what the document says of them comes with the events. It uses the annotations of Annot.
--   Refs: live-browser.js 3636-3690 and 4431-4477, the references to elements in copy edits. Document
--     is documentRefForElement, Query queryManualEditRef. The elements of the body are a forest, and
--     an element is a place in it.
--   Markdown: live-browser.js 12809-12921, the markdown of the design panel. Inline is inlineMd with
--     its regular expressions, Lists buildListHtml, Blocks renderMarkdown with the patterns of a line.
--   Dom: live-browser-dom.js, the helpers on elements: Elements (own, pickable, desc,
--     makeFrozenAnchor, hasFrameworkHmrOwnership) and Lookup (id8, cssId, uiGetById,
--     activeElementDeep).
--   Css: live-browser.js 5369-5429, how CSS is read that is scoped to a variant: Scan is
--     splitCssSelectorList and findMatchingCssBrace, with the indices of the source.
--   Ignores: live-browser-ignores.js, the findings that a project waives on a page. Glob
--     (globToRegex, matchesScope), Page (pageCandidates), Resolve (resolveDetectIgnores).
--   Prelude: what the parts share.
--
-- Messages of the server, clicks and answers are values, and a run is the fold of a list of them.
-- Lengths in pixels are counted in 64ths, which the layout of a browser rounds to. Texts are lists of
-- code units, and white space is what is in ASCII with the no-break space. A storage holds items or
-- throws; the dock's progress (ManualApply.Stored) is kept for one pathname, in one item whose
-- reading, writing and removal throw together. Revisions and other numbers are unbounded, where
-- JavaScript counts exactly up to 2^53 only. The values of an `ignoreValues` entry are texts or missing. The loop over a glob runs on
-- its length as fuel, since a turn of it takes one character at least, and so do the replacements in
-- the markdown; a number is printed with a fuel that is larger than it; the other loops go over lists
-- and forests.
--
-- Not modelled: DOM nodes, styles and animations, which are calls of the browser; the parts of
-- live-browser.js that the list does not name; modern-screenshot.umd.js, which is of a third party;
-- and the Python service in ar_pipeline.
pub mod Prelude
pub mod Annot
pub mod Css
pub mod Dom
pub mod Ignores
pub mod Insert
pub mod Json
pub mod Live
pub mod ManualApply
pub mod Markdown
pub mod Pick
pub mod Refs
pub mod Requests
pub mod Resume
pub mod Session

-- ===== src/Pick/State.antt =====
-- The variables of live-browser.js that the picking of elements reads and writes.
use ar_automation_agent.Prelude.{
  ℕ, Bool, true, false, Option, none, some, List, [], ◌∷◌, some_of, ◌==◌, if◌then◌else◌,
}
use ar_automation_agent.Prelude.Text.{Text}
use ar_automation_agent.Annot.State.{Annot}
use ar_automation_agent.Resume.Meta.{LiveState, idle, picking, configuring, editing, cycling}

-- Elements of the page are numbers.
abbrev pub El : Type 0
El = ℕ

pub data Kind : Type 0 where
  replace insert : Kind

pub data Position : Type 0 where
  before behind : Position

pub data Axis : Type 0 where
  row column : Axis

-- `insertHoverAnchor`, `insertHoverPosition` and `insertHoverAxis`, which are set and cleared together.
pub record Hover : Type 0 where
  pub anchor : El
  pub position : Position
  pub axis : Axis

-- A row of `inlineEditRows`: `text` is also what `dataset.impeccableOriginalText` holds.
pub record Row : Type 0 where
  pub el : El
  pub text : Text

-- `picker_displayed` is that the style of the action picker is not `display: none`, and
-- `picker_timers` the calls that will set it. `texts` are the texts of the page's elements.
pub record Pick : Type 0 where
  pub state : LiveState
  pub pick_active : Bool
  pub insert_active : Bool
  pub pending_apply_in_flight : Bool
  pub live_interaction_revision : ℕ
  pub hovered_element : Option El
  pub selected_element : Option El
  pub configure_kind : Kind
  pub insert_hover : Option Hover
  pub placeholder_element : Option El
  pub insert_anchor : Option Hover
  pub picker_displayed : Bool
  pub picker_timers : ℕ
  pub tune_open : Bool
  pub bar_shown : Bool
  pub highlighted : Bool
  pub page_pick_skip_click : Bool
  pub inline_edit_rows : List Row
  pub inline_edit_drafts : List (El × Text)
  pub texts : El → Text
  pub annot : Annot
  pub saved_prefs : Option (Bool × Bool)

abbrev pub is_insert : Kind → Bool
is_insert replace = false
is_insert insert = true

abbrev pub is_el : Option El → El → Bool
is_el none e = false
is_el (some d) e = d == e

abbrev pub is_picking : LiveState → Bool
is_picking picking = true
is_picking s = false

abbrev pub is_configuring : LiveState → Bool
is_configuring configuring = true
is_configuring s = false

abbrev pub is_editing : LiveState → Bool
is_editing editing = true
is_editing s = false

abbrev pub is_idle : LiveState → Bool
is_idle idle = true
is_idle s = false

abbrev pub is_cycling : LiveState → Bool
is_cycling cycling = true
is_cycling s = false

-- `inlineEditDrafts.has(el)`
abbrev pub has_draft : El → List (El × Text) → Bool
has_draft e drafts = some_of (λ (d : El × Text). d.0 == e) drafts

-- `inlineEditDrafts.delete(el)`
unfoldable pub without_draft : El → List (El × Text) → List (El × Text)
without_draft e [] = []
without_draft e (d ∷ ds) = let rest = without_draft e ds in if d.0 == e then rest else d ∷ rest

-- `el.textContent = text`
abbrev pub with_text : El → Text → (El → Text) → El → Text
with_text e t texts d = if e == d then t else texts d

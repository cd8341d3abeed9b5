-- ===== src/Insert/Axis.antt =====
-- `detectInsertAxisFromStyle` of live-browser.js: the direction in which a parent lays out its children.
use ar_automation_agent.Prelude.{
  Bool, false, ◌&&◌, ◌||◌, Option, none, some, if◌then◌else◌, ltb, not,
}
use ar_automation_agent.Prelude.Text.{
  Text, codes, text_eq, starts_with, includes, trim, is_set, or_text, word_count,
}

pub data Axis : Type 0 where
  row column : Axis

-- The parts of a computed style that are read. A missing one is `none`.
pub record Style : Type 0 where
  pub display : Option Text
  pub flex_direction : Option Text
  pub grid_auto_flow : Option Text
  pub grid_template_columns : Option Text

abbrev pub is_grid : Text → Bool
is_grid display = text_eq display (codes "grid") || text_eq display (codes "inline-grid")

-- Each branch of the grid case returns; the last two both return `row`.
unfoldable pub grid_axis : Style → Axis
grid_axis s =
    if includes (codes "column") (or_text s.grid_auto_flow (codes "row"))
    then column
    else let cols = trim (or_text s.grid_template_columns (codes "")) in
      if is_set cols && not (text_eq cols (codes "none"))
      then (if ltb 1 (word_count false cols) then row else row)
      else row

unfoldable pub detect_insert_axis_from_style : Style → Axis
unfolding grid_axis
detect_insert_axis_from_style s =
    let display = or_text s.display (codes "block") in
    if includes (codes "flex") display
    then (if starts_with (codes "row") (or_text s.flex_direction (codes "row"))
        then row
        else column)
    else if is_grid display
    then grid_axis s
    else column

-- The parent's style, if it is an element (`nodeType === 1`).
unfoldable pub detect_insert_axis : Option Style → Axis
detect_insert_axis none = column
detect_insert_axis (some s) = detect_insert_axis_from_style s

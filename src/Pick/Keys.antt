-- ===== src/Pick/Keys.antt =====
-- `handleKeyDown` of live-browser.js.
use ar_automation_agent.Prelude.{
  Bool, true, false, not, ◌||◌, ◌&&◌, Option, none, some, List, find_first, ◌==◌, if◌then◌else◌,
}
use ar_automation_agent.Resume.Meta.{LiveState, idle, picking, configuring, editing, cycling}
use ar_automation_agent.Pick.State.{
  El, Row, Pick, is_insert, is_picking, is_configuring, is_cycling, without_draft, with_text,
}
use ar_automation_agent.Pick.Steps.{
  set_live_state, show_highlight, hide_highlight, hide_action_picker, show_bar, clear_all,
  show_overlay, disable_inline_edit, is_inline_edit_active, cancel_editing, cancel_insert_configure,
  exit_configure_to_picking,
}
use ar_automation_agent.Pick.Tools.{toggle_pick, toggle_insert}
use ar_automation_agent.Pick.Pointer.{configure}

pub data Key : Type 0 where
  escape enter arrow_up arrow_down arrow_left arrow_right other_key : Key

-- The focused element: an input of the tool (the one of the configuration, the page chat, another
-- one), an input or an editable element of the page, or neither. Of an input, whether it is a select
-- and whether it is empty.
pub data Field : Type 0 where
  configure_input chat_input other_input : Field

pub data Focus : Type 0 where
  own_field : Field → Bool → Bool → Focus
  page_field : Focus
  page_editable : El → Focus
  elsewhere : Focus

-- What the document says of elements.
pub record Dom : Type 0 where
  pub pickable : El → Bool
  pub next_siblings : El → List El
  pub previous_siblings : El → List El
  pub parent : El → Option El
  pub children : El → List El

-- A key, whether its target is the input of an annotation, the target where it is editable, and the
-- focus.
pub record Press : Type 0 where
  pub key : Key
  pub shift : Bool
  pub in_annotation : Bool
  pub editable_target : Option El
  pub focus : Focus

-- What a key comes to outside of this model.
pub data Call : Type 0 where
  busy_toast discards accepts : Call
  cycles : Bool → Call

abbrev pub is_up_or_down : Key → Bool
is_up_or_down arrow_up = true
is_up_or_down arrow_down = true
is_up_or_down k = false

abbrev pub is_enter : Key → Bool
is_enter enter = true
is_enter k = false

abbrev pub is_escape : Key → Bool
is_escape escape = true
is_escape k = false

-- A key on an empty input of the tool that moves the selection all the same.
unfoldable pub should_passthrough_element_nav : Field → Bool → Bool → Key → LiveState → Bool
should_passthrough_element_nav configure_input select is_empty k s =
    is_up_or_down k && not select && is_empty && is_configuring s
should_passthrough_element_nav chat_input select is_empty k s =
    is_up_or_down k && not select && is_empty && is_picking s
should_passthrough_element_nav other_input select is_empty k s = false

-- The field that has the focus takes the key.
abbrev pub takes_key : Focus → Key → Pick → Bool
takes_key (own_field f select is_empty) k p =
    not (should_passthrough_element_nav f select is_empty k p.state)
takes_key page_field k p = true
takes_key (page_editable e) k p = not (is_inline_edit_active e p)
takes_key elsewhere k p = false

abbrev pub text_of_row : El → List Row → Option Row
text_of_row e rows = find_first (λ (r : Row). r.el == e) rows

-- Escape in a text that is edited takes its edit back.
unfoldable pub undo_edit : El → Pick → Pick
unfolding without_draft
undo_edit e p = elim (text_of_row e p.inline_edit_rows) [
  | none ↦ p
  | some r ↦ record p {
    texts = with_text e r.text p.texts;
    inline_edit_drafts = without_draft e p.inline_edit_drafts;
  }
]

abbrev pub Outcome : Type 0
Outcome = Pick × Option Call

-- `toggleInsert` or `togglePick`, or the end of a picking that no tool is active for.
abbrev pub escape_picking : Pick → Pick
escape_picking p =
    if p.insert_active
    then toggle_insert p
    else if p.pick_active
    then toggle_pick p
    else set_live_state idle (hide_highlight p)

abbrev pub escape_configuring : Pick → Pick
escape_configuring p =
    if is_insert p.configure_kind
    then cancel_insert_configure p
    else exit_configure_to_picking false p

-- In the other states, Escape goes on to the keys below, where it means nothing.
abbrev pub escape_in : LiveState → Pick → Outcome
escape_in editing p = (cancel_editing p, none)
escape_in configuring p = (escape_configuring p, none)
escape_in cycling p = (p, some discards)
escape_in picking p = (escape_picking p, none)
escape_in s p = (p, none)

abbrev pub on_escape : Pick → Outcome
on_escape p = if p.picker_displayed then (hide_action_picker p, none) else escape_in p.state p

abbrev pub nav_element : Pick → Option El
nav_element p =
    if is_picking p.state
    then p.hovered_element
    else if is_configuring p.state
    then p.selected_element
    else none

abbrev pub if_pickable : Dom → Option El → Option El
if_pickable d none = none
if_pickable d (some e) = if d.pickable e then some e else none

-- The element that an arrow leads to.
unfoldable pub nav_target : Dom → Key → Bool → El → Option El
nav_target d arrow_down false e = find_first d.pickable (d.next_siblings e)
nav_target d arrow_up false e = find_first d.pickable (d.previous_siblings e)
nav_target d arrow_up true e = if_pickable d (d.parent e)
nav_target d arrow_down true e = find_first d.pickable (d.children e)
nav_target d k shift e = none

abbrev pub go_to : El → Pick → Pick
go_to e p =
    if is_picking p.state
    then show_highlight (record p { hovered_element = some e })
    else show_highlight (
        disable_inline_edit
          (show_bar (show_overlay (some e) (clear_all (record p { selected_element = some e })))))

abbrev pub move_to : Option El → Pick → Pick
move_to none p = p
move_to (some e) p = go_to e p

abbrev pub navigate : Dom → Press → El → Pick → Pick
navigate d k e p =
    if is_enter k.key
    then show_highlight (configure e p)
    else move_to (nav_target d k.key k.shift e) p

abbrev pub is_nav : Key → Pick → Bool
is_nav k p = is_up_or_down k || (is_enter k && is_picking p.state)

-- The keys of the comparison of variants; `true` leads to the next one.
abbrev pub cycling_call : Key → Option Call
cycling_call arrow_left = some (cycles false)
cycling_call arrow_right = some (cycles true)
cycling_call enter = some accepts
cycling_call k = none

abbrev pub cycling_keys : Key → Pick → Outcome
cycling_keys k p = if is_cycling p.state then (p, cycling_call k) else (p, none)

abbrev pub nav_keys : Dom → Press → Option El → Pick → Outcome
nav_keys d k none p = cycling_keys k.key p
nav_keys d k (some e) p = if is_nav k.key p then (navigate d k e p, none) else cycling_keys k.key p

abbrev pub is_live : LiveState → Bool
is_live s = is_picking s || (is_configuring s || is_cycling s)

-- While an apply is in flight.
abbrev pub busy_keys : Key → Pick → Outcome
busy_keys k p = if is_enter k && is_live p.state then (p, some busy_toast) else (p, none)

abbrev pub page_keys : Dom → Press → Pick → Outcome
page_keys d k p =
    if p.pending_apply_in_flight
    then busy_keys k.key p
    else if is_escape k.key
    then on_escape p
    else nav_keys d k (nav_element p) p

abbrev pub edited_target : Option El → Pick → Option El
edited_target none p = none
edited_target (some e) p = if is_inline_edit_active e p then some e else none

abbrev pub edit_keys : Key → El → Pick → Outcome
edit_keys k e p = if is_escape k then (undo_edit e p, none) else (p, none)

abbrev pub target_keys : Dom → Press → Option El → Pick → Outcome
target_keys d k none p = page_keys d k p
target_keys d k (some e) p = edit_keys k.key e p

unfoldable pub handle_key_down : Dom → Press → Pick → Outcome
unfolding should_passthrough_element_nav undo_edit set_live_state show_highlight hide_highlight
    hide_action_picker show_bar disable_inline_edit cancel_editing cancel_insert_configure
    exit_configure_to_picking toggle_pick toggle_insert configure nav_target
handle_key_down d k p =
    if k.in_annotation || takes_key k.focus k.key p
    then (p, none)
    else target_keys d k (edited_target k.editable_target p) p

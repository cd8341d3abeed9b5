-- ===== src/Pick/Pointer.antt =====
-- `handleMouseMove` and `handleClick` of live-browser.js.
use ar_automation_agent.Prelude.{
  Bool, true, false, not, ◌||◌, ◌&&◌, Option, none, some, if◌then◌else◌,
}
use ar_automation_agent.Pick.State.{
  El, insert, Hover, Pick, is_insert, is_el, is_picking, is_configuring, is_editing,
}
use ar_automation_agent.Pick.Steps.{
  begin_new_live_configuration, show_highlight, hide_highlight, hide_insert_line, show_insert_line,
  create_insert_placeholder, hide_action_picker, close_tune_popover, show_bar, clear_all,
  show_overlay, exit_configure_to_picking, cancel_insert_configure, cancel_editing_to_picking,
}

-- The element under the pointer.
pub record Target : Type 0 where
  pub el : El
  pub own : Bool
  pub pickable : Bool

abbrev pub is_target : Target → Bool
is_target t = not t.own && t.pickable

-- `resolved` is what `resolveInsertHover` gives, none without an anchor or a line.
abbrev pub hover_insert : Option Target → Option Hover → Pick → Pick
hover_insert none resolved p = hide_insert_line p
hover_insert (some t) resolved p =
    if is_target t then show_insert_line resolved p else hide_insert_line p

abbrev pub hover_pick : Option Target → Pick → Pick
hover_pick none p = p
hover_pick (some t) p =
    if not t.pickable || is_el p.hovered_element t.el
    then p
    else show_highlight (record p { hovered_element = some t.el })

unfoldable pub handle_mouse_move : Option Target → Option Hover → Pick → Pick
unfolding hide_insert_line show_insert_line show_highlight
handle_mouse_move target resolved p =
    if p.pending_apply_in_flight
    then p
    else if is_picking p.state && p.insert_active
    then hover_insert target resolved p
    else if not (is_picking p.state) || not p.pick_active
    then p
    else hover_pick target p

-- A click: whether its target is of the tool, in the dock, and in the parameters' panel or the bar;
-- which elements contain it; whether the page has a text selection of its own; which elements are
-- pickable; and the placeholder that would be made.
pub record Click : Type 0 where
  pub own : Bool
  pub in_dock : Bool
  pub in_panel_or_bar : Bool
  pub is_inside : El → Bool
  pub has_selection : Bool
  pub pickable : El → Bool
  pub new_placeholder : Option El

-- An element is selected, and no point of the click lies in it.
abbrev pub is_outside : Click → Pick → Bool
is_outside c p = elim p.selected_element [
  | none ↦ false
  | some e ↦ not c.own && not (c.is_inside e)
]

unfoldable pub configure : El → Pick → Pick
unfolding begin_new_live_configuration
configure e p =
    let q = begin_new_live_configuration (record p { selected_element = some e }) in
    show_bar (show_overlay (some e) (clear_all q))

abbrev pub begin_insert : Hover → Option El → Pick → Pick
begin_insert h none p = create_insert_placeholder h none p
begin_insert h (some new) p =
    let q = hide_insert_line (create_insert_placeholder h (some new) p) in
    hide_highlight (configure new (record q { configure_kind = insert }))

abbrev pub click_insert : Click → Pick → Pick
click_insert c p =
    if c.own
    then p
    else elim p.insert_hover [ none ↦ p | some h ↦ begin_insert h c.new_placeholder p ]

abbrev pub select_hovered : Click → Option El → Pick → Pick
select_hovered c none p = p
select_hovered c (some e) p = if c.pickable e then show_highlight (configure e p) else p

abbrev pub click_pick : Click → Pick → Pick
click_pick c p =
    if c.own
    then p
    else if p.page_pick_skip_click || c.has_selection
    then record p { page_pick_skip_click = false }
    else select_hovered c p.hovered_element p

abbrev pub close_popovers : Click → Pick → Pick
close_popovers c p =
    let q = if p.picker_displayed && not c.own then hide_action_picker p else p in
    if q.tune_open && not c.in_panel_or_bar then close_tune_popover q else q

abbrev pub leave_configure : Pick → Pick
leave_configure p =
    if is_insert p.configure_kind
    then cancel_insert_configure p
    else exit_configure_to_picking true p

abbrev pub click_page : Click → Pick → Pick
click_page c p =
    if is_editing p.state && is_outside c p
    then cancel_editing_to_picking p
    else if is_configuring p.state && is_outside c p
    then leave_configure p
    else if is_picking p.state && p.insert_active
    then click_insert c p
    else if not (is_picking p.state) || not p.pick_active
    then p
    else click_pick c p

unfoldable pub handle_click : Click → Pick → Pick
unfolding hide_action_picker close_tune_popover cancel_editing_to_picking cancel_insert_configure
    exit_configure_to_picking create_insert_placeholder hide_insert_line hide_highlight configure
    show_highlight
handle_click c p =
    if p.pending_apply_in_flight && not c.in_dock
    then (if p.picker_displayed then hide_action_picker p else p)
    else click_page c (close_popovers c p)

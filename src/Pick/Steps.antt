-- ===== src/Pick/Steps.antt =====
-- The steps that the handlers share: how a configuration begins and ends.
use ar_automation_agent.Prelude.{
  suc, ◌-◌, Bool, true, false, Option, none, some, List, [], ◌∷◌, map, some_of, ◌==◌, if◌then◌else◌,
}
use ar_automation_agent.Prelude.Text.{Text}
use ar_automation_agent.Annot.State.{clear_annotations, show_annot_overlay, hide_annot_overlay}
use ar_automation_agent.Resume.Meta.{LiveState, idle, picking, configuring, editing}
use ar_automation_agent.Pick.State.{
  El, replace, Hover, Row, Pick, is_insert, is_editing, has_draft, without_draft, with_text,
}

unfoldable pub set_live_state : LiveState → Pick → Pick
set_live_state s p = record p { state = s }

unfoldable pub begin_new_live_configuration : Pick → Pick
unfolding set_live_state
begin_new_live_configuration p =
    set_live_state configuring
      (record p { live_interaction_revision = suc p.live_interaction_revision })

unfoldable pub show_highlight : Pick → Pick
show_highlight p = record p { highlighted = true }

unfoldable pub hide_highlight : Pick → Pick
hide_highlight p = record p { highlighted = false }

unfoldable pub hide_insert_line : Pick → Pick
hide_insert_line p = record p { insert_hover = none }

-- Where there is no anchor or no line, the line stays as it is.
unfoldable pub show_insert_line : Option Hover → Pick → Pick
show_insert_line none p = p
show_insert_line (some h) p = record p { insert_hover = some h }

unfoldable pub remove_insert_placeholder_dom : Pick → Pick
remove_insert_placeholder_dom p = record p {
  placeholder_element = none;
  annot = record p.annot { resizing = false };
}

unfoldable pub finalize_insert_session : Pick → Pick
unfolding remove_insert_placeholder_dom
finalize_insert_session p =
    let q = remove_insert_placeholder_dom p in
    record q { insert_anchor = none; configure_kind = replace }

unfoldable pub clear_insert_picking : Pick → Pick
unfolding hide_insert_line finalize_insert_session
clear_insert_picking p = finalize_insert_session (hide_insert_line p)

-- `new` is the element that is made, where the anchor has a parent to hold it.
unfoldable pub create_insert_placeholder : Hover → Option El → Pick → Pick
unfolding remove_insert_placeholder_dom
create_insert_placeholder h none p = remove_insert_placeholder_dom p
create_insert_placeholder h (some new) p = record (remove_insert_placeholder_dom p) {
  placeholder_element = some new;
  insert_anchor = some h;
}

-- The picker fades, and is gone when its timer is due.
unfoldable pub hide_action_picker : Pick → Pick
hide_action_picker p = record p { picker_timers = suc p.picker_timers }

unfoldable pub on_picker_due : Pick → Pick
on_picker_due p =
    if p.picker_timers == 0
    then p
    else record p { picker_timers = p.picker_timers - 1; picker_displayed = false }

unfoldable pub toggle_action_picker : Pick → Pick
unfolding hide_action_picker
toggle_action_picker p =
    if p.pending_apply_in_flight
    then p
    else if p.picker_displayed
    then hide_action_picker p
    else record p { picker_displayed = true }

unfoldable pub close_tune_popover : Pick → Pick
close_tune_popover p = record p { tune_open = false }

-- Each row with a draft gets its text back.
unfoldable pub restored : List Row → List (El × Text) → (El → Text) → El → Text
restored [] drafts texts = texts
restored (r ∷ rs) drafts texts =
    restored rs drafts (if has_draft r.el drafts then with_text r.el r.text texts else texts)

unfoldable pub restore_inline_edit_drafts : Pick → Pick
unfolding restored
restore_inline_edit_drafts p = record p {
  texts = restored p.inline_edit_rows p.inline_edit_drafts p.texts;
}

unfoldable pub disable_inline_edit : Pick → Pick
disable_inline_edit p = record p { inline_edit_rows = []; inline_edit_drafts = [] }

abbrev pub rows_of : (El → Text) → List El → List Row
rows_of texts els = map (λ e. record { el = e; text = texts e }) els

-- `leaves` are the elements that `collectEditableTextRows` finds below the target.
unfoldable pub enable_inline_edit : Option El → (El → List El) → Pick → Pick
enable_inline_edit none leaves p = p
enable_inline_edit (some e) leaves p = record p {
  inline_edit_rows = rows_of p.texts (leaves e);
  inline_edit_drafts = [];
}

abbrev pub is_inline_edit_active : El → Pick → Bool
is_inline_edit_active e p = some_of (λ (r : Row). r.el == e) p.inline_edit_rows

unfoldable pub on_inline_input : El → Text → Pick → Pick
unfolding without_draft
on_inline_input e t p =
    if is_inline_edit_active e p
    then record p {
      texts = with_text e t p.texts;
      inline_edit_drafts = (e, t) ∷ without_draft e p.inline_edit_drafts;
    }
    else p

unfoldable pub hide_bar : Pick → Pick
unfolding clear_insert_picking hide_action_picker close_tune_popover restore_inline_edit_drafts
    disable_inline_edit
hide_bar p =
    let q = if is_insert p.configure_kind then clear_insert_picking p else p in
    let r = close_tune_popover (hide_action_picker (record q { bar_shown = false })) in
    disable_inline_edit (if is_editing r.state then restore_inline_edit_drafts r else r)

unfoldable pub show_bar : Pick → Pick
show_bar p = record p { bar_shown = true }

abbrev pub clear_all : Pick → Pick
clear_all p = record p { annot = clear_annotations p.annot }

abbrev pub hide_overlay : Pick → Pick
hide_overlay p = record p { annot = hide_annot_overlay p.annot }

-- Without an element, the overlay is not shown.
abbrev pub show_overlay : Option El → Pick → Pick
show_overlay none p = p
show_overlay (some e) p = record p { annot = show_annot_overlay p.annot }

unfoldable pub teardown_configure_chrome : Pick → Pick
unfolding hide_bar
teardown_configure_chrome p = clear_all (hide_overlay (hide_bar p))

abbrev pub without_hover : Pick → Pick
without_hover p = record p { hovered_element = none; highlighted = false }

unfoldable pub exit_configure_to_picking : Bool → Pick → Pick
unfolding teardown_configure_chrome set_live_state
exit_configure_to_picking clear_hover p =
    let q = set_live_state picking (teardown_configure_chrome p) in
    if clear_hover then without_hover q else q

unfoldable pub cancel_insert_configure : Pick → Pick
unfolding hide_bar clear_insert_picking set_live_state
cancel_insert_configure p =
    let q = clear_insert_picking (clear_all (hide_overlay (hide_bar p))) in
    let r = record q { configure_kind = replace; selected_element = none } in
    record (set_live_state (if r.insert_active then picking else idle) r) { highlighted = false }

unfoldable pub remove_configure_selection : Pick → Pick
unfolding cancel_insert_configure exit_configure_to_picking
remove_configure_selection p =
    if is_insert p.configure_kind
    then cancel_insert_configure p
    else exit_configure_to_picking true (record p { selected_element = none })

unfoldable pub enter_editing_mode : (El → List El) → Pick → Pick
unfolding set_live_state hide_bar enable_inline_edit
enter_editing_mode leaves p =
    if p.pending_apply_in_flight
    then p
    else enable_inline_edit p.selected_element leaves
        (hide_overlay (hide_bar (set_live_state editing p)))

abbrev pub back_to_configure : Pick → Pick
back_to_configure p =
    show_overlay p.selected_element (record p { state = configuring; bar_shown = true })

unfoldable pub cancel_editing : Pick → Pick
unfolding restore_inline_edit_drafts disable_inline_edit
cancel_editing p = back_to_configure (disable_inline_edit (restore_inline_edit_drafts p))

unfoldable pub cancel_editing_to_picking : Pick → Pick
unfolding restore_inline_edit_drafts disable_inline_edit hide_bar set_live_state
cancel_editing_to_picking p =
    let q = hide_bar (disable_inline_edit (restore_inline_edit_drafts p)) in
    without_hover (set_live_state picking (clear_all (hide_overlay q)))

-- The edits are saved on the server.
unfoldable pub on_stash_saved : Pick → Pick
unfolding disable_inline_edit
on_stash_saved p = back_to_configure (disable_inline_edit p)

-- ===== src/Pick/Untouched.antt =====
-- The steps that leave the tools as they are.
use ar_automation_agent.Prelude.{
  ◌≡◌, refl, ◌∙◌, Bool, true, Option, none, some, List, arith, if◌then◌else◌,
}
use ar_automation_agent.Pick.State.{Pick, Hover, insert, El, Row, with_text, without_draft}
use ar_automation_agent.Pick.Steps.{
  set_live_state, begin_new_live_configuration, show_highlight, hide_highlight, hide_insert_line,
  show_insert_line, remove_insert_placeholder_dom, finalize_insert_session, clear_insert_picking,
  create_insert_placeholder, hide_action_picker, close_tune_popover, restore_inline_edit_drafts,
  disable_inline_edit, hide_bar, show_bar, show_overlay, hide_overlay, teardown_configure_chrome,
  exit_configure_to_picking, cancel_insert_configure, remove_configure_selection,
  enter_editing_mode, enable_inline_edit, cancel_editing, cancel_editing_to_picking,
  on_inline_input, toggle_action_picker, on_picker_due,
}
use ar_automation_agent.Pick.Pointer.{
  Target, Click, configure, leave_configure, begin_insert, select_hovered, click_pick, click_page,
  close_popovers, handle_mouse_move, handle_click,
}
use ar_automation_agent.Pick.Keys.{
  Dom, Press, undo_edit, nav_keys, Key, go_to, move_to, navigate, nav_target, cycling_keys,
  busy_keys, text_of_row, edit_keys,
}
use ar_automation_agent.Resume.Meta.{editing}
use ar_automation_agent.Prelude.Text.{Text}

abbrev pub Tools : Type 0
Tools = Bool × Bool × Option (Bool × Bool)

abbrev pub tools : Pick → Tools
tools p = (p.pick_active, p.insert_active, p.saved_prefs)

pub hide_bar-tools : (p : Pick) → tools (hide_bar p) ≡ tools p
unfolding hide_bar clear_insert_picking finalize_insert_session remove_insert_placeholder_dom
    hide_insert_line hide_action_picker close_tune_popover restore_inline_edit_drafts
    disable_inline_edit
hide_bar-tools p = ground arith

pub overlay-tools : (o : Option El) (p : Pick) → tools (show_overlay o p) ≡ tools p
overlay-tools none p = refl
overlay-tools (some e) p = refl

pub exit-tools : (c : Bool) (p : Pick) → tools (exit_configure_to_picking c p) ≡ tools p
unfolding exit_configure_to_picking teardown_configure_chrome set_live_state
exit-tools c p = ground (arith, hide_bar-tools p)

pub cancel_insert-tools : (p : Pick) → tools (cancel_insert_configure p) ≡ tools p
unfolding cancel_insert_configure set_live_state clear_insert_picking finalize_insert_session
    remove_insert_placeholder_dom hide_insert_line
cancel_insert-tools p = hide_bar-tools p

pub move-tools :
    (t : Option Target) (h : Option Hover) (p : Pick) → tools (handle_mouse_move t h p) ≡ tools p
unfolding handle_mouse_move hide_insert_line show_insert_line show_highlight
move-tools t h p = ground arith

pub to_picking-tools : (p : Pick) → tools (cancel_editing_to_picking p) ≡ tools p
unfolding cancel_editing_to_picking set_live_state disable_inline_edit restore_inline_edit_drafts
to_picking-tools p = hide_bar-tools (disable_inline_edit (restore_inline_edit_drafts p))

pub configure-tools : (e : El) (p : Pick) → tools (configure e p) ≡ tools p
unfolding configure begin_new_live_configuration set_live_state show_bar
configure-tools e p = refl

pub placeholder-tools :
    (h : Hover) (o : Option El) (p : Pick) → tools (create_insert_placeholder h o p) ≡ tools p
unfolding create_insert_placeholder remove_insert_placeholder_dom
placeholder-tools h none p = refl
placeholder-tools h (some e) p = refl

pub leave-tools : (p : Pick) → tools (leave_configure p) ≡ tools p
leave-tools p = ground (arith, cancel_insert-tools p, exit-tools true p)

pub insert-tools : (h : Hover) (o : Option El) (p : Pick) → tools (begin_insert h o p) ≡ tools p
unfolding hide_insert_line hide_highlight
insert-tools h none p = placeholder-tools h none p
insert-tools h (some e) p =
    configure-tools e (record (hide_insert_line (create_insert_placeholder h (some e) p)) {
      configure_kind = insert;
    })
    ∙ placeholder-tools h (some e) p

pub click_insert-tools :
    (c : Click) (o : Option Hover) (p : Pick)
    → tools (if c.own then p else elim o [ none ↦ p | some h ↦ begin_insert h c.new_placeholder p ])
      ≡ tools p
click_insert-tools c none p = ground arith
click_insert-tools c (some h) p = ground (arith, insert-tools h c.new_placeholder p)

pub hovered-tools : (c : Click) (o : Option El) (p : Pick) → tools (select_hovered c o p) ≡ tools p
unfolding show_highlight
hovered-tools c none p = refl
hovered-tools c (some e) p = ground (arith, configure-tools e p)

pub click_pick-tools : (c : Click) (p : Pick) → tools (click_pick c p) ≡ tools p
click_pick-tools c p = ground (arith, hovered-tools c p.hovered_element p)

pub click_page-tools : (c : Click) (p : Pick) → tools (click_page c p) ≡ tools p
click_page-tools c p = ground (
  arith,
  to_picking-tools p,
  leave-tools p,
  click_insert-tools c p.insert_hover p,
  click_pick-tools c p,
)

pub popovers-tools : (c : Click) (p : Pick) → tools (close_popovers c p) ≡ tools p
unfolding hide_action_picker close_tune_popover
popovers-tools c p = ground arith

pub click-tools : (c : Click) (p : Pick) → tools (handle_click c p) ≡ tools p
unfolding handle_click hide_action_picker
click-tools c p = ground (arith, click_page-tools c (close_popovers c p), popovers-tools c p)

pub cancel_editing-tools : (p : Pick) → tools (cancel_editing p) ≡ tools p
unfolding cancel_editing disable_inline_edit restore_inline_edit_drafts
cancel_editing-tools p = overlay-tools p.selected_element _

pub go_to-tools : (e : El) (p : Pick) → tools (go_to e p) ≡ tools p
unfolding show_highlight disable_inline_edit show_bar
go_to-tools e p = ground arith

pub move_to-tools : (o : Option El) (p : Pick) → tools (move_to o p) ≡ tools p
move_to-tools none p = refl
move_to-tools (some e) p = go_to-tools e p

pub navigate-tools : (d : Dom) (k : Press) (e : El) (p : Pick) → tools (navigate d k e p) ≡ tools p
unfolding show_highlight
navigate-tools d k e p =
    ground (arith, configure-tools e p, move_to-tools (nav_target d k.key k.shift e) p)

pub cycling-tools : (k : Key) (p : Pick) → tools (cycling_keys k p).0 ≡ tools p
cycling-tools k p = ground arith

pub nav-tools :
    (d : Dom) (k : Press) (o : Option El) (p : Pick) → tools (nav_keys d k o p).0 ≡ tools p
nav-tools d k none p = cycling-tools k.key p
nav-tools d k (some e) p = ground (arith, navigate-tools d k e p, cycling-tools k.key p)

pub busy-tools : (k : Key) (p : Pick) → tools (busy_keys k p).0 ≡ tools p
busy-tools k p = ground arith

pub undo-tools : (e : El) (p : Pick) → tools (undo_edit e p) ≡ tools p
unfolding undo_edit
undo-tools e p = undone (text_of_row e p.inline_edit_rows)
  where
    undone :
        (o : Option Row)
        → tools (elim o [
          | none ↦ p
          | some r ↦ record p {
            texts = with_text e r.text p.texts;
            inline_edit_drafts = without_draft e p.inline_edit_drafts;
          }
        ])
          ≡ tools p
    undone none = refl
    undone (some r) = refl

pub edit-tools : (k : Key) (e : El) (p : Pick) → tools (edit_keys k e p).0 ≡ tools p
edit-tools k e p = ground (arith, undo-tools e p)

pub enable-tools :
    (o : Option El) (leaves : El → List El) (p : Pick)
    → tools (enable_inline_edit o leaves p) ≡ tools p
unfolding enable_inline_edit
enable-tools none leaves p = refl
enable-tools (some e) leaves p = refl

pub enter-tools : (leaves : El → List El) (p : Pick) → tools (enter_editing_mode leaves p) ≡ tools p
unfolding enter_editing_mode set_live_state
enter-tools leaves p =
    let q = set_live_state editing p in
    ground
      (arith, enable-tools p.selected_element leaves (hide_overlay (hide_bar q)), hide_bar-tools q)

pub input-tools : (e : El) (t : Text) (p : Pick) → tools (on_inline_input e t p) ≡ tools p
unfolding on_inline_input
input-tools e t p = ground arith

pub remove-tools : (p : Pick) → tools (remove_configure_selection p) ≡ tools p
unfolding remove_configure_selection
remove-tools p =
    ground (arith, cancel_insert-tools p, exit-tools true (record p { selected_element = none }))

pub picker-tools : (p : Pick) → tools (toggle_action_picker p) ≡ tools p
unfolding toggle_action_picker hide_action_picker
picker-tools p = ground arith

pub due-tools : (p : Pick) → tools (on_picker_due p) ≡ tools p
unfolding on_picker_due
due-tools p = ground arith

pub teardown-tools : (p : Pick) → tools (teardown_configure_chrome p) ≡ tools p
unfolding teardown_configure_chrome
teardown-tools p = hide_bar-tools p

pub clear-tools : (p : Pick) → tools (clear_insert_picking p) ≡ tools p
unfolding clear_insert_picking finalize_insert_session remove_insert_placeholder_dom
    hide_insert_line
clear-tools p = refl

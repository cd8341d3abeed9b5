-- ===== src/Pick/Ended.antt =====
-- How the mouse and the steps that the handlers share end an edit.
use ar_automation_agent.Prelude.{
  ◌≡◌, refl, Bool, true, false, not, ◌&&◌, ◌||◌, Option, none, some, arith, if_cases, both_of_and,
  none_of_or, not-eq-false,
}
use ar_automation_agent.Prelude.Text.{Text}
use ar_automation_agent.Resume.Meta.{
  LiveState, idle, picking, configuring, editing, generating, cycling, saving, confirmed,
}
use ar_automation_agent.Pick.State.{
  El, Pick, Hover, insert, is_insert, is_editing, is_picking, is_configuring,
}
use ar_automation_agent.Pick.Steps.{
  hide_bar, clear_insert_picking, finalize_insert_session, remove_insert_placeholder_dom,
  hide_insert_line, show_insert_line, show_highlight, hide_highlight, begin_new_live_configuration,
  show_bar, show_overlay, hide_action_picker, close_tune_popover, restore_inline_edit_drafts,
  disable_inline_edit, set_live_state, create_insert_placeholder, teardown_configure_chrome,
  exit_configure_to_picking, cancel_insert_configure, cancel_editing, cancel_editing_to_picking,
}
use ar_automation_agent.Pick.Pointer.{
  Target, Click, configure, leave_configure, begin_insert, click_insert, select_hovered, click_pick,
  click_page, close_popovers, is_outside, handle_mouse_move, handle_click,
}
use ar_automation_agent.Pick.Keys.{Dom, Press, go_to, move_to, navigate, nav_target, is_enter}
use ar_automation_agent.Pick.Kept.{
  IsKept, IsClean, clean-IsKept, kept-IsClean, inline, same-IsClean, same-IsKept, hide_bar-IsClean,
  restore-IsClean,
}

module _ (orig : El → Text) where
  pub not_editing : (s : LiveState) → is_picking s ≡ true → is_editing s ≡ false
  not_editing picking h = refl
  not_editing editing h = cc
  not_editing idle h = refl
  not_editing configuring h = refl
  not_editing generating h = refl
  not_editing cycling h = refl
  not_editing saving h = refl
  not_editing confirmed h = refl

  pub configuring_not_editing : (s : LiveState) → is_configuring s ≡ true → is_editing s ≡ false
  configuring_not_editing editing h = cc
  configuring_not_editing picking h = refl
  configuring_not_editing idle h = refl
  configuring_not_editing configuring h = refl
  configuring_not_editing generating h = refl
  configuring_not_editing cycling h = refl
  configuring_not_editing saving h = refl
  configuring_not_editing confirmed h = refl

  pub exit-IsClean :
      (c : Bool) (p : Pick) → IsKept orig p → IsClean orig (exit_configure_to_picking c p)
  unfolding exit_configure_to_picking teardown_configure_chrome set_live_state
  exit-IsClean c p h = same-IsClean orig (hide_bar p) _ (ground arith) (hide_bar-IsClean orig p h)

  pub cancel_insert-IsClean : (p : Pick) → IsKept orig p → IsClean orig (cancel_insert_configure p)
  unfolding cancel_insert_configure set_live_state clear_insert_picking finalize_insert_session
      remove_insert_placeholder_dom hide_insert_line
  cancel_insert-IsClean p h = same-IsClean orig (hide_bar p) _ refl (hide_bar-IsClean orig p h)

  pub leave-IsClean : (p : Pick) → IsKept orig p → IsClean orig (leave_configure p)
  leave-IsClean p h =
      if_cases (IsClean orig) (is_insert p.configure_kind) _ _ (λ _. cancel_insert-IsClean p h)
        (λ _. exit-IsClean true p h)

  pub to_picking-IsClean : (p : Pick) → IsKept orig p → IsClean orig (cancel_editing_to_picking p)
  unfolding cancel_editing_to_picking set_live_state
  to_picking-IsClean p h =
      let q = disable_inline_edit (restore_inline_edit_drafts p) in
      same-IsClean orig (hide_bar q) _ refl
        (hide_bar-IsClean orig q (clean-IsKept orig q (restore-IsClean orig p h)))

  pub overlay-inline : (o : Option El) (p : Pick) → inline (show_overlay o p) ≡ inline p
  overlay-inline none p = refl
  overlay-inline (some e) p = refl

  pub cancel_editing-IsClean : (p : Pick) → IsKept orig p → IsClean orig (cancel_editing p)
  unfolding cancel_editing
  cancel_editing-IsClean p h =
      same-IsClean orig (disable_inline_edit (restore_inline_edit_drafts p)) _
        (overlay-inline p.selected_element _) (restore-IsClean orig p h)

  pub move-IsKept :
      (t : Option Target) (o : Option Hover) (p : Pick)
      → IsKept orig p
      → IsKept orig (handle_mouse_move t o p)
  unfolding handle_mouse_move hide_insert_line show_insert_line show_highlight
  move-IsKept t o p h = same-IsKept orig p _ (ground arith) (ground arith) h

  pub configure-IsClean : (e : El) (p : Pick) → IsClean orig p → IsClean orig (configure e p)
  unfolding configure begin_new_live_configuration set_live_state show_bar
  configure-IsClean e p h = same-IsClean orig p _ refl h

  pub placeholder-inline :
      (o : Hover) (new : Option El) (p : Pick)
      → inline (create_insert_placeholder o new p) ≡ inline p
  unfolding create_insert_placeholder remove_insert_placeholder_dom
  placeholder-inline o none p = refl
  placeholder-inline o (some e) p = refl

  pub begin_insert-IsClean :
      (o : Hover) (new : Option El) (p : Pick)
      → IsClean orig p
      → IsClean orig (begin_insert o new p)
  unfolding hide_insert_line hide_highlight
  begin_insert-IsClean o none p h = same-IsClean orig p _ (placeholder-inline o none p) h
  begin_insert-IsClean o (some e) p h =
      let q = record (hide_insert_line (create_insert_placeholder o (some e) p)) {
        configure_kind = insert;
      } in
      same-IsClean orig (configure e q) _ refl
        (configure-IsClean e q (same-IsClean orig p q (placeholder-inline o (some e) p) h))

  pub click_insert-IsClean :
      (c : Click) (p : Pick) → IsClean orig p → IsClean orig (click_insert c p)
  click_insert-IsClean c p h =
      if_cases (IsClean orig) c.own _ _ (λ _. h) (λ _. hovered p.insert_hover)
    where
      hovered :
          (o : Option Hover)
          → IsClean orig (elim o [ none ↦ p | some i ↦ begin_insert i c.new_placeholder p ])
      hovered none = h
      hovered (some i) = begin_insert-IsClean i c.new_placeholder p h

  pub select-IsClean :
      (c : Click) (o : Option El) (p : Pick) → IsClean orig p → IsClean orig (select_hovered c o p)
  unfolding show_highlight
  select-IsClean c none p h = h
  select-IsClean c (some e) p h =
      if_cases (IsClean orig) (c.pickable e) _ _
        (λ _. same-IsClean orig (configure e p) _ refl (configure-IsClean e p h)) (λ _. h)

  pub click_pick-IsClean : (c : Click) (p : Pick) → IsClean orig p → IsClean orig (click_pick c p)
  click_pick-IsClean c p h =
      if_cases (IsClean orig) c.own _ _ (λ _. h)
        (λ _.
          if_cases (IsClean orig) (p.page_pick_skip_click || c.has_selection) _ _
            (λ _. same-IsClean orig p _ refl h) (λ _. select-IsClean c p.hovered_element p h))

  pub clean : (q : Pick) → IsClean orig q → IsKept orig q
  clean q h = clean-IsKept orig q h

  pub click_page-IsKept : (c : Click) (p : Pick) → IsKept orig p → IsKept orig (click_page c p)
  click_page-IsKept c p h =
      if_cases (IsKept orig) (is_editing p.state && is_outside c p) _ _
        (λ _. clean _ (to_picking-IsClean p h))
        (λ _.
          if_cases (IsKept orig) (is_configuring p.state && is_outside c p) _ _
            (λ _. clean _ (leave-IsClean p h))
            (λ _.
              if_cases (IsKept orig) (is_picking p.state && p.insert_active) _ _
                (λ s. clean _ (
                  click_insert-IsClean c p
                    (kept-IsClean orig p (not_editing p.state (both_of_and _ _ s).0) h)))
                (λ _.
                  if_cases (IsKept orig) (not (is_picking p.state) || not p.pick_active) _ _
                    (λ _. h)
                    (λ s. clean _ (
                      click_pick-IsClean c p (
                        kept-IsClean orig p
                          (not_editing p.state (not-eq-false _ (none_of_or _ _ s).0)) h))))))

  pub popovers-IsKept : (c : Click) (p : Pick) → IsKept orig p → IsKept orig (close_popovers c p)
  unfolding hide_action_picker close_tune_popover
  popovers-IsKept c p h = same-IsKept orig p _ (ground arith) (ground arith) h

  pub click-IsKept : (c : Click) (p : Pick) → IsKept orig p → IsKept orig (handle_click c p)
  unfolding handle_click hide_action_picker
  click-IsKept c p h =
      if_cases (IsKept orig) (p.pending_apply_in_flight && not c.in_dock) _ _
        (λ _. same-IsKept orig p _ (ground arith) (ground arith) h)
        (λ _. click_page-IsKept c (close_popovers c p) (popovers-IsKept c p h))

  pub go_to-IsClean : (e : El) (p : Pick) → IsClean orig p → IsClean orig (go_to e p)
  unfolding show_highlight disable_inline_edit show_bar
  go_to-IsClean e p h =
      if_cases (IsClean orig) (is_picking p.state) _ _ (λ _. same-IsClean orig p _ refl h)
        (λ _. record { rows = refl; texts = h.texts })

  pub move_to-IsClean : (o : Option El) (p : Pick) → IsClean orig p → IsClean orig (move_to o p)
  move_to-IsClean none p h = h
  move_to-IsClean (some e) p h = go_to-IsClean e p h

  pub navigate-IsClean :
      (d : Dom) (k : Press) (e : El) (p : Pick) → IsClean orig p → IsClean orig (navigate d k e p)
  unfolding show_highlight
  navigate-IsClean d k e p h =
      if_cases (IsClean orig) (is_enter k.key) _ _
        (λ _. same-IsClean orig (configure e p) _ refl (configure-IsClean e p h))
        (λ _. move_to-IsClean (nav_target d k.key k.shift e) p h)

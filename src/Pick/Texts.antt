-- ===== src/Pick/Texts.antt =====
-- Edits of texts that are not saved leave no trace.
use ar_automation_agent.Prelude.{
  ◌≡◌, refl, true, false, not, ◌&&◌, ◌||◌, Option, none, some, List, [], ◌∷◌, arith, if_cases,
  both_of_and,
}
use ar_automation_agent.Prelude.Text.{Text}
use ar_automation_agent.Resume.Meta.{
  LiveState, idle, picking, configuring, editing, generating, cycling, saving, confirmed,
}
use ar_automation_agent.Pick.State.{
  El, Pick, replace, is_insert, is_editing, is_picking, is_configuring, is_idle,
}
use ar_automation_agent.Pick.Steps.{
  hide_bar, clear_insert_picking, finalize_insert_session, remove_insert_placeholder_dom,
  hide_insert_line, hide_highlight, hide_action_picker, set_live_state, teardown_configure_chrome,
  remove_configure_selection, toggle_action_picker, on_picker_due,
}
use ar_automation_agent.Pick.Tools.{
  pick_off, pick_on, insert_on, insert_off, toggle_pick, toggle_insert, save_interaction_prefs,
}
use ar_automation_agent.Pick.Keys.{
  Dom, Press, Outcome, handle_key_down, target_keys, nav_element, edited_target, takes_key,
  is_escape, page_keys, escape_picking, escape_configuring, escape_in,
}
use ar_automation_agent.Pick.Run.{
  Event, moves, clicks, keys, edits, inputs, toggles_pick, toggles_insert, toggles_picker,
  picker_due, removes, cancels, step, run,
}
use ar_automation_agent.Pick.Kept.{
  IsKept, IsClean, clean-IsKept, kept-IsClean, same-IsClean, same-IsKept, hide_bar-IsClean,
}
use ar_automation_agent.Pick.Ended.{
  not_editing, exit-IsClean, cancel_insert-IsClean, cancel_editing-IsClean, move-IsKept,
  click-IsKept,
}
use ar_automation_agent.Pick.Unsaved.{kept, nav-IsKept, undo-IsKept, input-IsKept, enter-IsKept}

module _ (orig : El → Text) where
  idle_not_editing : (s : LiveState) → is_idle s ≡ true → is_editing s ≡ false
  idle_not_editing idle h = refl
  idle_not_editing editing h = cc
  idle_not_editing picking h = refl
  idle_not_editing configuring h = refl
  idle_not_editing generating h = refl
  idle_not_editing cycling h = refl
  idle_not_editing saving h = refl
  idle_not_editing confirmed h = refl

  prefs-IsKept : (p : Pick) → IsKept orig p → IsKept orig (save_interaction_prefs p)
  unfolding save_interaction_prefs
  prefs-IsKept p h = same-IsKept orig p _ refl refl h

  state-IsClean : (s : LiveState) (p : Pick) → IsClean orig p → IsClean orig (set_live_state s p)
  unfolding set_live_state
  state-IsClean s p h = same-IsClean orig p _ refl h

  cleared-IsKept : (p : Pick) → IsKept orig p → IsKept orig (clear_insert_picking p)
  unfolding clear_insert_picking finalize_insert_session remove_insert_placeholder_dom
      hide_insert_line
  cleared-IsKept p h = same-IsKept orig p _ refl refl h

  insert_off-IsKept : (p : Pick) → IsKept orig p → IsKept orig (insert_off p)
  insert_off-IsKept p h =
      let q = clear_insert_picking p in
      if_cases (IsKept orig) (is_picking q.state && not q.pick_active) _ _
        (λ s. kept orig _ (
          state-IsClean idle q (
            kept-IsClean orig q (not_editing orig q.state (both_of_and _ _ s).0)
              (cleared-IsKept p h))))
        (λ _. cleared-IsKept p h)

  hidden-IsClean : (p : Pick) → IsKept orig p → IsClean orig (hide_action_picker (hide_bar p))
  unfolding hide_action_picker
  hidden-IsClean p h = same-IsClean orig (hide_bar p) _ refl (hide_bar-IsClean orig p h)

  insert_on-IsKept : (p : Pick) → IsKept orig p → IsKept orig (insert_on p)
  unfolding hide_highlight
  insert_on-IsKept p h =
      let p1 = hide_highlight (record p { pick_active = false }) in
      let q = hide_action_picker (hide_bar p1) in
      let r = record q { selected_element = none; configure_kind = replace } in
      let clean : IsClean orig r =
        same-IsClean orig q r refl (hidden-IsClean p1 (same-IsKept orig p p1 refl refl h)) in
      if_cases (IsKept orig) (is_configuring r.state) _ _
        (λ _. kept orig _ (cancel_insert-IsClean orig r (kept orig r clean)))
        (λ _.
          if_cases (IsKept orig) (is_idle r.state || is_picking r.state) _ _
            (λ _. kept orig _ (state-IsClean picking r clean)) (λ _. kept orig r clean))

  toggle_insert-IsKept : (p : Pick) → IsKept orig p → IsKept orig (toggle_insert p)
  unfolding toggle_insert
  toggle_insert-IsKept p h =
      let off = record p { insert_active = false } in
      let on = record p { insert_active = true } in
      if_cases (IsKept orig) p.pending_apply_in_flight _ _ (λ _. h)
        (λ _.
          if_cases (IsKept orig) p.insert_active _ _
            (λ _.
              prefs-IsKept (insert_off off)
                (insert_off-IsKept off (same-IsKept orig p off refl refl h)))
            (λ _.
              prefs-IsKept (insert_on on)
                (insert_on-IsKept on (same-IsKept orig p on refl refl h))))

  torn-IsClean : (p : Pick) → IsKept orig p → IsClean orig (teardown_configure_chrome p)
  unfolding teardown_configure_chrome
  torn-IsClean p h = same-IsClean orig (hide_bar p) _ refl (hide_bar-IsClean orig p h)

  pick_off-IsKept : (p : Pick) → IsKept orig p → IsKept orig (pick_off p)
  unfolding hide_action_picker hide_highlight
  pick_off-IsKept p h =
      let q = hide_action_picker (hide_highlight (teardown_configure_chrome p)) in
      let r = record q {
        selected_element = none;
        hovered_element = none;
        configure_kind = replace;
      } in
      let clean : IsClean orig r =
        same-IsClean orig (teardown_configure_chrome p) r refl (torn-IsClean p h) in
      if_cases (IsKept orig) (is_insert p.configure_kind && is_configuring p.state) _ _
        (λ _. kept orig _ (cancel_insert-IsClean orig p h))
        (λ _.
          if_cases (IsKept orig) (is_picking r.state || is_configuring r.state) _ _
            (λ _. kept orig _ (state-IsClean idle r clean)) (λ _. kept orig r clean))

  pick_on-IsKept : (p : Pick) → IsKept orig p → IsKept orig (pick_on p)
  pick_on-IsKept p h =
      if_cases (IsKept orig) (is_idle p.state) _ _
        (λ s.
          kept orig _
            (state-IsClean picking p (kept-IsClean orig p (idle_not_editing p.state s) h)))
        (λ _. h)

  toggle_pick-IsKept : (p : Pick) → IsKept orig p → IsKept orig (toggle_pick p)
  unfolding toggle_pick
  toggle_pick-IsKept p h =
      let off = record p { pick_active = false } in
      let on = record p { pick_active = true; insert_active = false } in
      if_cases (IsKept orig) p.pending_apply_in_flight _ _ (λ _. h)
        (λ _.
          if_cases (IsKept orig) p.pick_active _ _
            (λ _.
              pick_off-IsKept (save_interaction_prefs off)
                (prefs-IsKept off (same-IsKept orig p off refl refl h)))
            (λ _. pick_on-IsKept (save_interaction_prefs (clear_insert_picking on)) (
              prefs-IsKept (clear_insert_picking on)
                (cleared-IsKept on (same-IsKept orig p on refl refl h)))))

  picking-IsKept : (p : Pick) → IsClean orig p → IsKept orig (escape_picking p)
  unfolding hide_highlight
  picking-IsKept p h =
      if_cases (IsKept orig) p.insert_active _ _ (λ _. toggle_insert-IsKept p (kept orig p h))
        (λ _.
          if_cases (IsKept orig) p.pick_active _ _ (λ _. toggle_pick-IsKept p (kept orig p h))
            (λ _.
              kept orig _ (state-IsClean idle (hide_highlight p) (same-IsClean orig p _ refl h))))

  configuring-IsClean : (p : Pick) → IsKept orig p → IsClean orig (escape_configuring p)
  configuring-IsClean p h =
      if_cases (IsClean orig) (is_insert p.configure_kind) _ _ (λ _. cancel_insert-IsClean orig p h)
        (λ _. exit-IsClean orig false p h)

  escape-IsKept :
      (s : LiveState) (p : Pick) → p.state ≡ s → IsKept orig p → IsKept orig (escape_in s p).0
  escape-IsKept editing p at h = kept orig _ (cancel_editing-IsClean orig p h)
  escape-IsKept configuring p at h = kept orig _ (configuring-IsClean p h)
  escape-IsKept cycling p at h = h
  escape-IsKept picking p at h = picking-IsKept p (kept-IsClean orig p (rw at refl) h)
  escape-IsKept idle p at h = h
  escape-IsKept generating p at h = h
  escape-IsKept saving p at h = h
  escape-IsKept confirmed p at h = h

  page_keys-IsKept :
      (d : Dom) (k : Press) (p : Pick) → IsKept orig p → IsKept orig (page_keys d k p).0
  unfolding hide_action_picker
  page_keys-IsKept d k p h =
      if_cases (λ (o : Outcome). IsKept orig o.0) p.pending_apply_in_flight _ _
        (λ _. same-IsKept orig p _ (ground arith) (ground arith) h)
        (λ _.
          if_cases (λ (o : Outcome). IsKept orig o.0) (is_escape k.key) _ _
            (λ _.
              if_cases (λ (o : Outcome). IsKept orig o.0) p.picker_displayed _ _
                (λ _. same-IsKept orig p _ refl refl h) (λ _. escape-IsKept p.state p refl h))
            (λ _. nav-IsKept orig d k (nav_element p) p refl h))

  target-IsKept :
      (d : Dom) (k : Press) (o : Option El) (p : Pick)
      → IsKept orig p
      → IsKept orig (target_keys d k o p).0
  target-IsKept d k none p h = page_keys-IsKept d k p h
  target-IsKept d k (some e) p h =
      if_cases (λ (o : Outcome). IsKept orig o.0) (is_escape k.key) _ _
        (λ _. undo-IsKept orig e p h) (λ _. h)

  keys-IsKept :
      (d : Dom) (k : Press) (p : Pick) → IsKept orig p → IsKept orig (handle_key_down d k p).0
  unfolding handle_key_down
  keys-IsKept d k p h =
      if_cases (λ (o : Outcome). IsKept orig o.0) (k.in_annotation || takes_key k.focus k.key p) _ _
        (λ _. h) (λ _. target-IsKept d k (edited_target k.editable_target p) p h)

  remove-IsKept : (p : Pick) → IsKept orig p → IsKept orig (remove_configure_selection p)
  unfolding remove_configure_selection
  remove-IsKept p h =
      let q = record p { selected_element = none } in
      if_cases (IsKept orig) (is_insert p.configure_kind) _ _
        (λ _. kept orig _ (cancel_insert-IsClean orig p h))
        (λ _. kept orig _ (exit-IsClean orig true q (same-IsKept orig p q refl refl h)))

  step-IsKept : (e : Event) (p : Pick) → IsKept orig p → IsKept orig (step e p)
  unfolding step toggle_action_picker on_picker_due hide_action_picker
  step-IsKept (moves t o) p h = move-IsKept orig t o p h
  step-IsKept (clicks c) p h = click-IsKept orig c p h
  step-IsKept (keys d k) p h = keys-IsKept d k p h
  step-IsKept (edits leaves) p h = enter-IsKept orig leaves p h
  step-IsKept (inputs e t) p h = input-IsKept orig e t p h
  step-IsKept toggles_pick p h = toggle_pick-IsKept p h
  step-IsKept toggles_insert p h = toggle_insert-IsKept p h
  step-IsKept toggles_picker p h = same-IsKept orig p _ (ground arith) (ground arith) h
  step-IsKept picker_due p h = same-IsKept orig p _ (ground arith) (ground arith) h
  step-IsKept removes p h = remove-IsKept p h
  step-IsKept cancels p h = kept orig _ (cancel_editing-IsClean orig p h)

  run-IsKept : (es : List Event) (p : Pick) → IsKept orig p → IsKept orig (run es p)
  unfolding run
  run-IsKept [] p h = h
  run-IsKept (e ∷ es) p h = run-IsKept es (step e p) (step-IsKept e p h)

-- Between two states in which no text of the page is edited, each text is what it was, if no edit was
-- saved: by Escape, by a click outside, by a tool that is switched on or off, by another selection, an
-- edit ends without a trace.
pub run-texts :
    (es : List Event) (p : Pick) (e : El)
    → p.inline_edit_rows ≡ []
    → (run es p).inline_edit_rows ≡ []
    → (run es p).texts e ≡ p.texts e
run-texts es p e starts ends =
    let before : IsClean p.texts p = record { rows = starts; texts = λ d. refl } in
    (run-IsKept p.texts es p (clean-IsKept p.texts p before)).texts e (rw ends refl)

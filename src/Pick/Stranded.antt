-- ===== src/Pick/Stranded.antt =====
-- The insert tool is switched off while an insertion is configured.
use ar_automation_agent.Prelude.{◌≡◌, refl, true, false, none, [], ◌∷◌}
use ar_automation_agent.Resume.Meta.{picking, configuring}
use ar_automation_agent.Pick.State.{Pick, replace}
use ar_automation_agent.Pick.Steps.{
  clear_insert_picking, finalize_insert_session, remove_insert_placeholder_dom, hide_insert_line,
  exit_configure_to_picking, teardown_configure_chrome, hide_bar, hide_action_picker,
  close_tune_popover, disable_inline_edit, restore_inline_edit_drafts, set_live_state,
}
use ar_automation_agent.Pick.Tools.{toggle_insert, save_interaction_prefs}
use ar_automation_agent.Pick.Keys.{Dom, Press, escape, elsewhere, handle_key_down}
use ar_automation_agent.Pick.Run.{toggles_insert, keys, step, run}

-- Escape, with the focus in no field.
abbrev pub press_escape : Press
press_escape = record {
  key = escape;
  shift = false;
  in_annotation = false;
  editable_target = none;
  focus = elsewhere;
}

-- Between the two events: the placeholder is gone, and it is what is selected and configured.
pub record IsOrphan (p q : Pick) : Type 0 where
  pub state : q.state ≡ configuring
  pub kind : q.configure_kind ≡ replace
  pub selected : q.selected_element ≡ p.selected_element
  pub removed : q.placeholder_element ≡ none

-- The page is in the state of picking, and no tool is active.
pub record IsStranded (p : Pick) : Type 0 where
  pub state : p.state ≡ picking
  pub pick : p.pick_active ≡ false
  pub insert : p.insert_active ≡ false

toggle_insert-IsOrphan :
    (p : Pick)
    → p.pending_apply_in_flight ≡ false
    → p.insert_active ≡ true
    → p.state ≡ configuring
    → IsOrphan p (toggle_insert p)
unfolding toggle_insert save_interaction_prefs clear_insert_picking finalize_insert_session
    remove_insert_placeholder_dom hide_insert_line set_live_state
toggle_insert-IsOrphan p pending active state =
    simp (pending, active, state)
      (record { state = refl; kind = refl; selected = refl; removed = refl })

-- The fields that the keys read.
toggle_insert-rest :
    (p : Pick)
    → p.pending_apply_in_flight ≡ false
    → p.insert_active ≡ true
    → p.state ≡ configuring
    → ((toggle_insert p).pick_active ≡ p.pick_active)
      × ((toggle_insert p).insert_active ≡ false)
      × ((toggle_insert p).pending_apply_in_flight ≡ false)
      × ((toggle_insert p).picker_displayed ≡ p.picker_displayed)
unfolding toggle_insert save_interaction_prefs clear_insert_picking finalize_insert_session
    remove_insert_placeholder_dom hide_insert_line set_live_state
toggle_insert-rest p pending active state = simp (pending, active, state) (refl, refl, refl, refl)

escape-IsStranded :
    (d : Dom) (q : Pick)
    → q.pending_apply_in_flight ≡ false
    → q.picker_displayed ≡ false
    → q.state ≡ configuring
    → q.configure_kind ≡ replace
    → q.pick_active ≡ false
    → q.insert_active ≡ false
    → IsStranded (handle_key_down d press_escape q).0
unfolding handle_key_down exit_configure_to_picking teardown_configure_chrome hide_bar
    hide_action_picker close_tune_popover disable_inline_edit restore_inline_edit_drafts
    set_live_state
escape-IsStranded d q pending picker state kind pick ins =
    simp (pending, picker, state, kind) (record { state = refl; pick = pick; insert = ins })

-- To switch the insert tool off while an insertion is configured takes the placeholder away, which
-- stays selected and configured, as an element to replace. Escape leads to a picking without a tool.
pub toggle_insert-IsStranded :
    (d : Dom) (p : Pick)
    → p.pending_apply_in_flight ≡ false
    → p.insert_active ≡ true
    → p.pick_active ≡ false
    → p.state ≡ configuring
    → p.picker_displayed ≡ false
    → IsOrphan p (run (toggles_insert ∷ []) p)
      × IsStranded (run (toggles_insert ∷ keys d press_escape ∷ []) p)
unfolding run step
toggle_insert-IsStranded d p pending active pick state picker =
    let orphan = toggle_insert-IsOrphan p pending active state in
    let (picks, inserts, waits, shows) = toggle_insert-rest p pending active state in
    (
      orphan,
      escape-IsStranded d (toggle_insert p) waits (rw shows picker) orphan.state orphan.kind
          (rw picks pick) inserts,
    )

-- ===== src/Pick/Tests.antt =====
-- Picking at concrete inputs, and its theorems applied to them.
use ar_automation_agent.Prelude.{◌≡◌, refl, true, false, none, some, List, [], ◌∷◌, All}
use ar_automation_agent.Prelude.Text.{Text, codes, text_eq, trim, trim_start}
use ar_automation_agent.Annot.State.{Annot, no_click}
use ar_automation_agent.Resume.Meta.{configuring, editing}
use ar_automation_agent.Pick.State.{El, Row, Pick, replace, insert, without_draft}
use ar_automation_agent.Pick.Steps.{
  hide_bar, hide_action_picker, close_tune_popover, restore_inline_edit_drafts, disable_inline_edit,
  cancel_editing_to_picking, set_live_state, on_stash_saved, on_inline_input, enter_editing_mode,
  enable_inline_edit, restored, teardown_configure_chrome, hide_highlight,
}
use ar_automation_agent.Pick.Pointer.{Click, handle_click}
use ar_automation_agent.Pick.Tools.{toggle_pick, save_interaction_prefs}
use ar_automation_agent.Pick.Keys.{Dom}
use ar_automation_agent.Pick.Run.{
  Event, clicks, keys, edits, inputs, toggles_pick, toggles_insert, step, run,
}
use ar_automation_agent.Pick.Save.{Op, save_rows, forbidden_manual_text_chars}
use ar_automation_agent.Pick.Exclusive.{IsExclusive, run-IsExclusive}
use ar_automation_agent.Pick.Texts.{run-texts}
use ar_automation_agent.Pick.Stranded.{press_escape, IsOrphan, IsStranded, toggle_insert-IsStranded}
use ar_automation_agent.Pick.Busy.{still, run-still}
use ar_automation_agent.Pick.Sent.{IsSendable, AreChanges, save_rows-AreChanges}

abbrev no_marks : Annot
no_marks = record {
  comments = [];
  strokes = [];
  active = false;
  pointer = none;
  editing = none;
  last_pin_click = no_click;
  resizing = false;
}

abbrev page_texts : El → Text
page_texts e = codes "Buy"

-- Element 3 is configured.
abbrev chosen : Pick
chosen = record {
  state = configuring;
  pick_active = true;
  insert_active = false;
  pending_apply_in_flight = false;
  live_interaction_revision = 1;
  hovered_element = some 3;
  selected_element = some 3;
  configure_kind = replace;
  insert_hover = none;
  placeholder_element = none;
  insert_anchor = none;
  picker_displayed = false;
  picker_timers = 0;
  tune_open = false;
  bar_shown = true;
  highlighted = true;
  page_pick_skip_click = false;
  inline_edit_rows = [];
  inline_edit_drafts = [];
  texts = page_texts;
  annot = no_marks;
  saved_prefs = none;
}

abbrev dom : Dom
dom = record {
  pickable = λ e. true;
  next_siblings = λ e. 4 ∷ [];
  previous_siblings = λ e. [];
  parent = λ e. none;
  children = λ e. [];
}

abbrev outside : Click
outside = record {
  own = false;
  in_dock = false;
  in_panel_or_bar = false;
  is_inside = λ e. false;
  has_selection = false;
  pickable = λ e. true;
  new_placeholder = none;
}

abbrev edited : List Event
edited = edits (λ e. e ∷ []) ∷ inputs 3 (codes "Order") ∷ []

-- The saved text is answered after a click outside has ended the edit: the page is back in the
-- configuration, and has the old text.
abbrev late : Pick
late =
    on_stash_saved
      (run (edits (λ e. e ∷ []) ∷ inputs 3 (codes "Order") ∷ clicks outside ∷ []) chosen)

late_save : (late.state ≡ configuring) × (late.texts 3 ≡ codes "Buy")
unfolding run step on_stash_saved on_inline_input enter_editing_mode enable_inline_edit handle_click
    hide_bar hide_action_picker close_tune_popover restore_inline_edit_drafts disable_inline_edit
    restored cancel_editing_to_picking set_live_state without_draft
late_save = (refl, refl)

run-IsExclusive_example : IsExclusive (run (toggles_insert ∷ toggles_pick ∷ []) chosen)
run-IsExclusive_example =
    run-IsExclusive (toggles_insert ∷ toggles_pick ∷ []) chosen
      (record { now = refl; saved = refl })

run-texts_example :
    (run (edits (λ e. e ∷ []) ∷ inputs 3 (codes "Order") ∷ toggles_pick ∷ []) chosen).texts 3
    ≡ codes "Buy"
unfolding run step on_inline_input enter_editing_mode enable_inline_edit hide_bar hide_action_picker
    close_tune_popover disable_inline_edit set_live_state
run-texts_example =
    run-texts (edits (λ e. e ∷ []) ∷ inputs 3 (codes "Order") ∷ toggles_pick ∷ []) chosen 3 refl
      refl

-- An insertion is configured: element 9 is its placeholder.
abbrev inserted : Pick
inserted = record chosen {
  pick_active = false;
  insert_active = true;
  selected_element = some 9;
  placeholder_element = some 9;
  configure_kind = insert;
}

toggle_insert-IsStranded_example :
    IsOrphan inserted (run (toggles_insert ∷ []) inserted)
    × IsStranded (run (toggles_insert ∷ keys dom press_escape ∷ []) inserted)
toggle_insert-IsStranded_example = toggle_insert-IsStranded dom inserted refl refl refl refl refl

abbrev applying : Pick
applying = record chosen { pending_apply_in_flight = true }

run-still_example :
    still (run (clicks outside ∷ keys dom press_escape ∷ toggles_pick ∷ []) applying)
    ≡ still applying
run-still_example =
    run-still (clicks outside ∷ keys dom press_escape ∷ toggles_pick ∷ []) applying
      (refl, (tt, (tt, tt))) refl

abbrev rows : List Row
rows = record { el = 3; text = codes "Buy" } ∷ record { el = 4; text = codes "Now" } ∷ []

abbrev order : List Op
order = record { el = 4; original_text = codes "Now"; new_text = codes "Later" } ∷ []

abbrev typed : List (El × Text)
typed = (4, codes "Later") ∷ (3, codes "Buy") ∷ []

save_rows-AreChanges_example : AreChanges typed rows order × All IsSendable order
unfolding save_rows text_eq trim trim_start forbidden_manual_text_chars
save_rows-AreChanges_example = save_rows-AreChanges typed rows order refl

-- The tool is switched off while a text is edited: nothing is selected, and the page stays in the state
-- of editing.
abbrev toggled : Pick
toggled = run (edits (λ e. e ∷ []) ∷ toggles_pick ∷ []) chosen

toggled_in_edit : (toggled.state ≡ editing) × (toggled.selected_element ≡ none)
unfolding run step toggle_pick enter_editing_mode enable_inline_edit hide_bar hide_action_picker
    close_tune_popover restore_inline_edit_drafts disable_inline_edit restored set_live_state
    save_interaction_prefs teardown_configure_chrome hide_highlight
toggled_in_edit = (refl, refl)

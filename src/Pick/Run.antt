-- ===== src/Pick/Run.antt =====
-- The events of picking, in any order, and the runs of them.
use ar_automation_agent.Prelude.{Option, List, [], ◌∷◌}
use ar_automation_agent.Prelude.Text.{Text}
use ar_automation_agent.Pick.State.{El, Hover, Pick}
use ar_automation_agent.Pick.Steps.{
  on_picker_due, toggle_action_picker, on_inline_input, remove_configure_selection,
  enter_editing_mode, cancel_editing,
}
use ar_automation_agent.Pick.Tools.{toggle_pick, toggle_insert}
use ar_automation_agent.Pick.Pointer.{Target, Click, handle_mouse_move, handle_click}
use ar_automation_agent.Pick.Keys.{Dom, Press, handle_key_down}

pub data Event : Type 0 where
  moves : Option Target → Option Hover → Event
  clicks : Click → Event
  keys : Dom → Press → Event
  edits : (El → List El) → Event
  inputs : El → Text → Event
  toggles_pick toggles_insert toggles_picker picker_due removes cancels : Event

-- A successful save is no event here, but a step of its own: `on_stash_saved`.
unfoldable pub step : Event → Pick → Pick
unfolding handle_mouse_move handle_click handle_key_down enter_editing_mode on_inline_input
    toggle_pick toggle_insert toggle_action_picker on_picker_due remove_configure_selection
    cancel_editing
step (moves t h) p = handle_mouse_move t h p
step (clicks c) p = handle_click c p
step (keys d k) p = (handle_key_down d k p).0
step (edits leaves) p = enter_editing_mode leaves p
step (inputs e t) p = on_inline_input e t p
step toggles_pick p = toggle_pick p
step toggles_insert p = toggle_insert p
step toggles_picker p = toggle_action_picker p
step picker_due p = on_picker_due p
step removes p = remove_configure_selection p
step cancels p = cancel_editing p

unfoldable pub run : List Event → Pick → Pick
unfolding step
run [] p = p
run (e ∷ es) p = run es (step e p)

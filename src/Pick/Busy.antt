-- ===== src/Pick/Busy.antt =====
-- While copy edits are applied, nothing is picked.
use ar_automation_agent.Prelude.{
  ◌≡◌, refl, ap, ◌∙◌, Bool, true, false, Option, none, some, List, [], ◌∷◌, All, arith,
}
use ar_automation_agent.Resume.Meta.{LiveState}
use ar_automation_agent.Pick.State.{El, Row, Pick, Kind}
use ar_automation_agent.Pick.Steps.{
  hide_action_picker, toggle_action_picker, on_picker_due, enter_editing_mode, on_inline_input,
}
use ar_automation_agent.Pick.Tools.{toggle_pick, toggle_insert}
use ar_automation_agent.Pick.Pointer.{handle_mouse_move, handle_click}
use ar_automation_agent.Pick.Keys.{
  Dom, Press, Key, undo_edit, edit_keys, target_keys, edited_target, handle_key_down,
}
use ar_automation_agent.Pick.Run.{
  Event, moves, clicks, keys, edits, inputs, toggles_pick, toggles_insert, toggles_picker,
  picker_due, removes, cancels, step, run,
}

-- All but the action picker, which fades.
abbrev Still : Type 0
Still = LiveState × Bool × Bool × Bool × Option El × Option El × Kind × List Row

abbrev pub still : Pick → Still
still p = (
  p.state, p.pick_active, p.insert_active, p.pending_apply_in_flight, p.hovered_element,
  p.selected_element, p.configure_kind, p.inline_edit_rows,
)

-- All but a click in the dock, which applies the edits, the removal of the selection and the end of
-- an edit: these three do not ask whether an apply is in flight.
abbrev pub IsGuarded : Event → Type 0
IsGuarded (clicks c) = c.in_dock ≡ false
IsGuarded removes = ⊥
IsGuarded cancels = ⊥
IsGuarded e = Unit

-- Escape in a text that is edited touches texts and drafts only.
undo_edit-still : (e : El) (p : Pick) → still (undo_edit e p) ≡ still p
unfolding undo_edit
undo_edit-still e p = ground arith

edit_keys-still : (k : Key) (e : El) (p : Pick) → still (edit_keys k e p).0 ≡ still p
edit_keys-still k e p = ground (arith, undo_edit-still e p)

keys-still :
    (d : Dom) (k : Press) (o : Option El) (p : Pick)
    → p.pending_apply_in_flight ≡ true
    → still (target_keys d k o p).0 ≡ still p
keys-still d k none p h = ground (arith, h)
keys-still d k (some e) p h = edit_keys-still k.key e p

step-still :
    (e : Event) (p : Pick)
    → IsGuarded e
    → p.pending_apply_in_flight ≡ true
    → still (step e p) ≡ still p
unfolding step handle_mouse_move handle_click hide_action_picker toggle_action_picker on_picker_due
    enter_editing_mode toggle_pick toggle_insert handle_key_down on_inline_input
step-still (moves t o) p g h = rw h refl
step-still (clicks c) p g h = ground (arith, g, h)
step-still (keys d k) p g h = ground (arith, keys-still d k (edited_target k.editable_target p) p h)
step-still (edits leaves) p g h = rw h refl
step-still (inputs e t) p g h = ground arith
step-still toggles_pick p g h = rw h refl
step-still toggles_insert p g h = rw h refl
step-still toggles_picker p g h = rw h refl
step-still picker_due p g h = ground arith
step-still removes p g h = absurd g
step-still cancels p g h = absurd g

-- While copy edits are applied, no sequence of events changes what is hovered, selected and
-- configured, the rows that are edited, the state, or the tools, as long as no event of it is a click
-- in the dock, the removal of the selection or the end of an edit: moves of the pointer, other clicks,
-- all keys, inputs, the tools and the action picker leave them.
pub run-still :
    (es : List Event) (p : Pick)
    → All IsGuarded es
    → p.pending_apply_in_flight ≡ true
    → still (run es p) ≡ still p
unfolding run
run-still [] p g h = refl
run-still (e ∷ es) p (g, gs) h =
    let kept = step-still e p g h in
    run-still es (step e p) gs (ap (λ (s : Still). s.3) kept ∙ h) ∙ kept

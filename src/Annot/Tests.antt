-- ===== src/Annot/Tests.antt =====
-- The pins at concrete inputs, and the theorems applied to them.
use ar_automation_agent.Prelude.{◌≡◌, refl, true, false, none, some, List, [], ◌∷◌, arith}
use ar_automation_agent.Prelude.Int.{pos}
use ar_automation_agent.Prelude.Text.{codes, trim}
use ar_automation_agent.Annot.State.{
  Point, Comment, Editing, Annot, no_click, begin_edit_pin, finalize_editing_pin, remove_at,
}
use ar_automation_agent.Annot.Pointer.{
  downs, ups, moves, types, escapes, pin_wrap, on_annot_down, on_annot_up, down_on_pin, hold_pin,
  delete_pin, step, run,
}
use ar_automation_agent.Annot.Escape.{run-begin_edit_pin}
use ar_automation_agent.Annot.Drag.{held, Moved, run-held}
use ar_automation_agent.Annot.Shift.{on_annot_down-throws}

abbrev at : Point
at = record { x = pos 640; y = pos 128 }

abbrev over : Point
over = record { x = pos 128; y = pos 256 }

abbrev pins : List Comment
pins = record { at = at; text = codes "wider" } ∷ record { at = over; text = codes "red" } ∷ []

abbrev shown : Annot
shown = record {
  comments = pins;
  strokes = [];
  active = true;
  pointer = none;
  editing = none;
  last_pin_click = no_click;
  resizing = false;
}

-- A second click on the pin within 300 ms deletes it.
double_click-deletes :
    (run (downs (pin_wrap 0) at 1000 ∷ ups ∷ downs (pin_wrap 0) at 1200 ∷ []) shown).comments
    ≡ record { at = over; text = codes "red" } ∷ []
unfolding run step on_annot_down on_annot_up down_on_pin hold_pin delete_pin remove_at
    finalize_editing_pin begin_edit_pin
double_click-deletes = refl

run-begin_edit_pin_example :
    (run (types (codes "w") ∷ types (codes "wi") ∷ escapes ∷ []) (begin_edit_pin 0 shown)).comments
    ≡ pins
run-begin_edit_pin_example =
    run-begin_edit_pin 0 (codes "wider") (codes "w" ∷ codes "wi" ∷ []) shown refl refl

run-held_example :
    Moved 0 at at over
      (record { at = at; text = codes "wider" })
      pins
      (run (moves over ∷ moves at ∷ moves over ∷ []) (held 0 at at pins shown)).comments
run-held_example =
    run-held shown refl refl 0 at at over (over ∷ at ∷ []) pins
      (record { at = at; text = codes "wider" }) refl

abbrev emptied : Editing
emptied = record { idx = 0; value = []; original_text = codes "wider" }

abbrev while_edited : Annot
while_edited = record shown { editing = some emptied }

on_annot_down-throws_example : (on_annot_down (pin_wrap 1) over 0 while_edited).1 ≡ true
unfolding trim
on_annot_down-throws_example =
    on_annot_down-throws while_edited emptied 1 over 0 refl refl refl refl (omega arith) refl refl

-- ===== src/Annot/Pointer.antt =====
-- `onAnnotDown`, `onAnnotMove` and `onAnnotUp` of live-browser.js.
use ar_automation_agent.Prelude.{
  ℕ, ◌+◌, ◌*◌, Bool, true, false, not, ◌&&◌, ◌||◌, Option, none, some, List, [], ◌∷◌, ◌++◌, length,
  get_elem?, ltb, ◌==◌, if◌then◌else◌,
}
use ar_automation_agent.Prelude.Int.{pos, ◌+ℤ◌, ◌-ℤ◌, ◌*ℤ◌, ltb_ℤ}
use ar_automation_agent.Prelude.Text.{Text}
use ar_automation_agent.Annot.State.{
  Point, Comment, new, pin, Editing, LastClick, Annot, Result, no_click, remove_at, change_at,
  clear_annotations, begin_edit_pin, finalize_editing_pin, cancel_editing_pin, on_input,
  show_annot_overlay, hide_annot_overlay,
}

-- What is under the pointer: a handle of the placeholder in insert mode, the chip that clears, a
-- stroke, a pin, or none of these.
pub data Target : Type 0 where
  resize_handle clear_chip empty_area : Target
  stroke_path pin_wrap : ℕ → Target

-- `Math.hypot(dx, dy) < DRAG_THRESHOLD`, of squares, for five pixels.
unfoldable pub is_click : Point → Point → Bool
unfolding ◌+ℤ◌ ◌-ℤ◌ ◌*ℤ◌
is_click p q =
    let dx = q.x -ℤ p.x in let dy = q.y -ℤ p.y in ltb_ℤ (dx *ℤ dx +ℤ dy *ℤ dy) (pos (320 * 320))

abbrev pub is_editing : ℕ → Option Editing → Bool
is_editing i none = false
is_editing i (some e) = e.idx == i

abbrev pub is_double : ℕ → ℕ → LastClick → Bool
is_double i now c = elim c.idx [ none ↦ false | some j ↦ j == i && ltb now (c.time + 300) ]

unfoldable pub delete_pin : ℕ → Annot → Annot
delete_pin i a = record a {
  comments = remove_at i a.comments;
  editing = if is_editing i a.editing then none else a.editing;
  last_pin_click = no_click;
}

-- A pin is taken up: to read the place of one that is not there throws.
unfoldable pub hold_pin : ℕ → Point → Annot → Result
hold_pin i p a = elim (get_elem? a.comments i) [
  | none ↦ (a, true)
  | some c ↦ (record a { pointer = some (pin i p c.at false) }, false)
]

-- The edit of another pin is committed before.
abbrev pub committed : ℕ → Annot → Result
committed i a = if is_editing i a.editing then (a, false) else finalize_editing_pin a

unfoldable pub down_on_pin : ℕ → Point → ℕ → Annot → Result
down_on_pin i p now a =
    if is_double i now a.last_pin_click
    then (delete_pin i a, false)
    else let clicked = record a { last_pin_click = record { idx = some i; time = now } } in
      let (b, throws) = committed i clicked in
      if throws then (b, true) else if is_editing i b.editing then (b, false) else hold_pin i p b

abbrev pub is_none : Option Editing → Bool
is_none none = true
is_none (some e) = false

unfoldable pub on_annot_down : Target → Point → ℕ → Annot → Result
on_annot_down t p now a = if not a.active then (a, false) else elim t [
  | resize_handle ↦ (record a { resizing = true }, false)
  | clear_chip ↦ (clear_annotations a, false)
  | stroke_path i ↦ (record a { strokes = remove_at i a.strokes }, false)
  | pin_wrap i ↦ down_on_pin i p now a
  | empty_area ↦
      if is_none a.editing
      then (record a { pointer = some (new p false []) }, false)
      else finalize_editing_pin a
]

-- A pin follows the pointer from where it was taken up.
unfoldable pub moved_by : Point → Point → Point → Point
unfolding ◌+ℤ◌ ◌-ℤ◌
moved_by start p at = record { x = at.x +ℤ (p.x -ℤ start.x); y = at.y +ℤ (p.y -ℤ start.y) }

abbrev pub placed : Point → Comment → Comment
placed p c = record c { at = p }

unfoldable pub move_pin : ℕ → Point → Point → Bool → Point → Annot → Annot
move_pin i start at moved p a =
    if not moved && is_click start p then a else elim (get_elem? a.comments i) [
      | none ↦ record a { pointer = none }
      | some c ↦ record a {
        pointer = some (pin i start at true);
        comments = change_at i (placed (moved_by start p at)) a.comments;
      }
    ]

unfoldable pub draw : Point → Bool → List Point → Point → Annot → Annot
draw start moved points p a =
    if moved
    then record a { pointer = some (new start true (points ++ p ∷ [])) }
    else if is_click start p
    then a
    else record a { pointer = some (new start true (start ∷ p ∷ [])) }

unfoldable pub on_annot_move : Point → Annot → Annot
on_annot_move p a = if not a.active || a.resizing then a else elim a.pointer [
  | none ↦ a
  | some q ↦ elim q [
    | new start moved points ↦ draw start moved points p a
    | pin i start at moved ↦ move_pin i start at moved p a
  ]
]

abbrev pub new_pin : Point → Annot → Annot
new_pin p a =
    begin_edit_pin (length a.comments)
      (record a { comments = a.comments ++ record { at = p; text = [] } ∷ [] })

unfoldable pub on_annot_up : Annot → Annot
on_annot_up a =
    if a.resizing
    then record a { resizing = false }
    else if not a.active
    then a
    else elim a.pointer [
      | none ↦ a
      | some q ↦ elim q [
        | new start moved points ↦
            record (if moved
              then record a { strokes = a.strokes ++ points ∷ [] }
              else new_pin start a) { pointer = none }
        | pin i start at moved ↦
            if moved
            then record a { pointer = none; last_pin_click = no_click }
            else begin_edit_pin i (record a { pointer = none })
      ]
    ]

pub data Event : Type 0 where
  downs : Target → Point → ℕ → Event
  moves : Point → Event
  types : Text → Event
  ups enters escapes blurs shows hides clears : Event

unfoldable pub step : Event → Annot → Result
step (downs t p now) a = on_annot_down t p now a
step (moves p) a = (on_annot_move p a, false)
step (types t) a = (on_input t a, false)
step ups a = (on_annot_up a, false)
step enters a = finalize_editing_pin a
step escapes a = cancel_editing_pin a
step blurs a = finalize_editing_pin a
step shows a = (show_annot_overlay a, false)
step hides a = (hide_annot_overlay a, false)
step clears a = (clear_annotations a, false)

-- A handler that throws leaves the state as it has it then, and the next event comes all the same.
unfoldable pub run : List Event → Annot → Annot
run [] a = a
run (e ∷ es) a = run es (step e a).0

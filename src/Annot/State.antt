-- ===== src/Annot/State.antt =====
-- `annotState` of live-browser.js with what is going on, and the editing of a pin.
use ar_automation_agent.Prelude.{
  ℕ, zero, suc, Bool, true, false, Option, none, some, List, [], ◌∷◌, length, get_elem?, ltb,
  if◌then◌else◌,
}
use ar_automation_agent.Prelude.Int.{ℤ}
use ar_automation_agent.Prelude.Text.{Text, trim, is_set}

-- Positions are counted in 64ths of a pixel, relative to the overlay.
pub record Point : Type 0 where
  pub x : ℤ
  pub y : ℤ

pub record Comment : Type 0 where
  pub at : Point
  pub text : Text

-- `annotPointer`: a new pin or stroke from a point, or a pin that is held.
pub data Pointer : Type 0 where
  new : Point → Bool → List Point → Pointer
  pin : ℕ → Point → Point → Bool → Pointer

-- `annotEditing`, with the value of its input.
pub record Editing : Type 0 where
  pub idx : ℕ
  pub value : Text
  pub original_text : Text

-- `annotLastPinClick`: none is the index -1.
pub record LastClick : Type 0 where
  pub idx : Option ℕ
  pub time : ℕ

pub record Annot : Type 0 where
  pub comments : List Comment
  pub strokes : List (List Point)
  pub active : Bool
  pub pointer : Option Pointer
  pub editing : Option Editing
  pub last_pin_click : LastClick
  pub resizing : Bool

-- The state behind a handler, and whether it has thrown.
abbrev pub Result : Type 0
Result = Annot × Bool

abbrev pub no_click : LastClick
no_click = record { idx = none; time = 0 }

-- `xs.splice(i, 1)`
unfoldable pub remove_at {ℓ} : {A : Type ℓ} → ℕ → List A → List A
remove_at i [] = []
remove_at zero (x ∷ xs) = xs
remove_at (suc i) (x ∷ xs) = x ∷ remove_at i xs

-- The item at an index is changed; where there is none, nothing is.
unfoldable pub change_at {ℓ} : {A : Type ℓ} → ℕ → (A → A) → List A → List A
change_at i f [] = []
change_at zero f (x ∷ xs) = f x ∷ xs
change_at (suc i) f (x ∷ xs) = x ∷ change_at i f xs

abbrev pub has_at : ℕ → Annot → Bool
has_at i a = ltb i (length a.comments)

abbrev pub with_text : Text → Comment → Comment
with_text t c = record c { text = t }

-- `annotState.comments[idx].text = text`, which throws where there is no such pin.
unfoldable pub set_text : ℕ → Text → Annot → Result
set_text i t a =
    if has_at i a
    then (record a { comments = change_at i (with_text t) a.comments }, false)
    else (a, true)

abbrev pub remove_pin : ℕ → Annot → Annot
remove_pin i a = record a { comments = remove_at i a.comments }

unfoldable pub clear_annotations : Annot → Annot
clear_annotations a = record a {
  comments = [];
  strokes = [];
  pointer = none;
  editing = none;
  last_pin_click = no_click;
}

unfoldable pub show_annot_overlay : Annot → Annot
show_annot_overlay a = record a { active = true }

unfoldable pub hide_annot_overlay : Annot → Annot
hide_annot_overlay a = record a { active = false; resizing = false; editing = none }

abbrev pub text_at : ℕ → List Comment → Option Text
text_at i cs = elim (get_elem? cs i) [ none ↦ none | some c ↦ some c.text ]

-- A pin that is not drawn is not edited.
unfoldable pub begin_edit_pin : ℕ → Annot → Annot
begin_edit_pin i a = elim (text_at i a.comments) [
  | none ↦ a
  | some t ↦ record a { editing = some (record { idx = i; value = t; original_text = t }) }
]

-- The user types into the input.
unfoldable pub on_input : Text → Annot → Annot
on_input t a = elim a.editing [
  | none ↦ a
  | some e ↦ record a { editing = some (record e { value = t }) }
]

-- Enter, the loss of the focus, and a pointer that goes down elsewhere.
unfoldable pub finalize_editing_pin : Annot → Result
finalize_editing_pin a = elim a.editing [
  | none ↦ (a, false)
  | some e ↦
      if is_set (trim e.value)
      then set_text e.idx (trim e.value) (record a { editing = none })
      else (remove_pin e.idx (record a { editing = none }), false)
]

-- Escape.
unfoldable pub cancel_editing_pin : Annot → Result
cancel_editing_pin a = elim a.editing [
  | none ↦ (a, false)
  | some e ↦
      if is_set e.original_text
      then set_text e.idx e.original_text (record a { editing = none })
      else (remove_pin e.idx (record a { editing = none }), false)
]

-- ===== src/Annot/Escape.antt =====
-- Escape takes an edit back.
use ar_automation_agent.Prelude.{
  ℕ, zero, suc, ◌≡◌, refl, sym, ap, ◌∙◌, true, false, none, some, List, [], ◌∷◌, ◌++◌, map, length,
  get_elem?, arith, ltb, lt→ltb, ◌<◌,
}
use ar_automation_agent.Prelude.Text.{Text, is_set}
use ar_automation_agent.Annot.State.{
  Point, Comment, Annot, remove_at, change_at, with_text, text_at, set_text, begin_edit_pin,
  on_input, cancel_editing_pin,
}
use ar_automation_agent.Annot.Pointer.{
  Event, downs, ups, types, escapes, empty_area, on_annot_down, on_annot_up, step, run,
}

get_elem-last {ℓ} :
    {A : Type ℓ} (xs : List A) (y : A) → get_elem? (xs ++ y ∷ []) (length xs) ≡ some y
get_elem-last [] y = refl
get_elem-last (x ∷ xs) y = get_elem-last xs y

remove_at-last {ℓ} : {A : Type ℓ} (xs : List A) (y : A) → remove_at (length xs) (xs ++ y ∷ []) ≡ xs
unfolding remove_at
remove_at-last [] y = refl
remove_at-last (x ∷ xs) y = ap (λ z. x ∷ z) (remove_at-last xs y)

-- To set the text that a pin has changes nothing.
change_at-same :
    (i : ℕ) (cs : List Comment) (t : Text)
    → text_at i cs ≡ some t
    → change_at i (with_text t) cs ≡ cs
unfolding change_at
change_at-same i [] t h = refl
change_at-same zero (c ∷ cs) t h =
    let same : c.text ≡ t = cc in ap (λ u. record c { text = u } ∷ cs) (sym same)
change_at-same (suc i) (c ∷ cs) t h = ap (λ z. c ∷ z) (change_at-same i cs t h)

has_at-text : (i : ℕ) (cs : List Comment) (t : Text) → text_at i cs ≡ some t → i < length cs
has_at-text i [] t h = cc
has_at-text zero (c ∷ cs) t h = omega arith
has_at-text (suc i) (c ∷ cs) t h = omega (arith, has_at-text i cs t h)

-- Typing changes the value of the input only.
record IsEdited (i : ℕ) (t : Text) (cs : List Comment) (a : Annot) : Type 0 where
  comments : a.comments ≡ cs
  value : Text
  editing : a.editing ≡ some (record { idx = i; value = value; original_text = t })

run-append : (es fs : List Event) (a : Annot) → run (es ++ fs) a ≡ run fs (run es a)
unfolding run
run-append [] fs a = refl
run-append (e ∷ es) fs a = run-append es fs (step e a).0

on_input-IsEdited :
    (u : Text) (i : ℕ) (t : Text) (cs : List Comment) (a : Annot)
    → IsEdited i t cs a
    → IsEdited i t cs (on_input u a)
unfolding on_input
on_input-IsEdited u i t cs a h =
    rw (h.editing, on_input) (record { comments = h.comments; value = u; editing = refl })

types-IsEdited :
    (ts : List Text) (i : ℕ) (t : Text) (cs : List Comment) (a : Annot)
    → IsEdited i t cs a
    → IsEdited i t cs (run (map types ts) a)
unfolding run step
types-IsEdited [] i t cs a h = h
types-IsEdited (u ∷ us) i t cs a h =
    types-IsEdited us i t cs (on_input u a) (on_input-IsEdited u i t cs a h)

begin_edit-IsEdited :
    (i : ℕ) (t : Text) (a : Annot)
    → text_at i a.comments ≡ some t
    → IsEdited i t a.comments (begin_edit_pin i a)
unfolding begin_edit_pin
begin_edit-IsEdited i t a h =
    rw (h, begin_edit_pin) (record { comments = refl; value = t; editing = refl })

escape-IsEdited :
    (i : ℕ) (t : Text) (cs : List Comment) (b : Annot)
    → IsEdited i t cs b
    → text_at i cs ≡ some t
    → is_set t ≡ true
    → (cancel_editing_pin b).0.comments ≡ cs
unfolding cancel_editing_pin set_text
escape-IsEdited i t cs b w h n =
    let here : ltb i (length cs) ≡ true = lt→ltb _ _ (has_at-text i cs t h) in
    rw (w.editing, cancel_editing_pin) (simp (n, w.comments, here) (change_at-same i cs t h))

escape_new-IsEdited :
    (i : ℕ) (cs : List Comment) (b : Annot)
    → IsEdited i [] cs b
    → (cancel_editing_pin b).0.comments ≡ remove_at i cs
unfolding cancel_editing_pin
escape_new-IsEdited i cs b w = rw (w.editing, cancel_editing_pin) (ap (remove_at i) w.comments)

run-escape :
    (es : List Event) (a : Annot) → run (es ++ escapes ∷ []) a ≡ (cancel_editing_pin (run es a)).0
unfolding run step
run-escape es a = run-append es (escapes ∷ []) a

-- The edit of a pin that had a text is taken back by Escape, whatever was typed.
pub run-begin_edit_pin :
    (i : ℕ) (t : Text) (ts : List Text) (a : Annot)
    → text_at i a.comments ≡ some t
    → is_set t ≡ true
    → (run (map types ts ++ escapes ∷ []) (begin_edit_pin i a)).comments ≡ a.comments
run-begin_edit_pin i t ts a h n =
    ap (λ (z : Annot). z.comments) (run-escape (map types ts) (begin_edit_pin i a))
    ∙ escape-IsEdited i t a.comments _
        (types-IsEdited ts i t a.comments _ (begin_edit-IsEdited i t a h)) h n

-- Behind a click on the empty area, the new pin is edited.
click-IsEdited :
    (p : Point) (now : ℕ) (a : Annot)
    → a.active ≡ true
    → a.resizing ≡ false
    → a.editing ≡ none
    → IsEdited
        (length a.comments)
        []
        (a.comments ++ record { at = p; text = [] } ∷ [])
        (on_annot_up (on_annot_down empty_area p now a).0)
unfolding on_annot_down on_annot_up begin_edit_pin
click-IsEdited p now a active resizing editing =
    simp (active, resizing, editing, get_elem-last)
      (record { comments = refl; value = []; editing = refl })

-- A click on the empty area makes a pin, and Escape takes it away again, whatever was typed.
pub run-new_pin :
    (p : Point) (now : ℕ) (ts : List Text) (a : Annot)
    → a.active ≡ true
    → a.resizing ≡ false
    → a.editing ≡ none
    → (run (downs empty_area p now ∷ ups ∷ (map types ts ++ escapes ∷ [])) a).comments ≡ a.comments
unfolding run step
run-new_pin p now ts a active resizing editing =
    let b = on_annot_up (on_annot_down empty_area p now a).0 in
    let n = length a.comments in
    ap (λ (z : Annot). z.comments) (run-escape (map types ts) b)
    ∙ escape_new-IsEdited n _ _
        (types-IsEdited ts n [] _ b (click-IsEdited p now a active resizing editing))
    ∙ remove_at-last a.comments _

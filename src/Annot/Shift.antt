-- ===== src/Annot/Shift.antt =====
-- A pin that is taken up while the edit of another one ends.
use ar_automation_agent.Prelude.{
  ℕ, zero, suc, ◌<◌, ◌≡◌, refl, true, false, none, some, List, [], ◌∷◌, length, get_elem?, arith,
  ◌==◌,
}
use ar_automation_agent.Prelude.Text.{trim, is_set}
use ar_automation_agent.Annot.State.{Point, Annot, Editing, remove_at, finalize_editing_pin}
use ar_automation_agent.Annot.Pointer.{pin_wrap, is_double, hold_pin, down_on_pin, on_annot_down}

get_elem-none {ℓ} : {A : Type ℓ} (xs : List A) (j : ℕ) → length xs ≡ j → get_elem? xs j ≡ none
get_elem-none [] j h = refl
get_elem-none (x ∷ xs) zero h = ground arith
get_elem-none (x ∷ xs) (suc j) h = get_elem-none xs j (omega (arith, h))

-- Behind the removal of an item, the place of the last one is empty.
get_elem-remove_at {ℓ} :
    {A : Type ℓ} (i j : ℕ) (xs : List A)
    → i < length xs
    → suc j ≡ length xs
    → get_elem? (remove_at i xs) j ≡ none
unfolding remove_at
get_elem-remove_at i j [] h e = ground arith
get_elem-remove_at zero j (x ∷ xs) h e = get_elem-none xs j (omega (arith, e))
get_elem-remove_at (suc i) zero (x ∷ xs) h e = ground (arith, h, e)
get_elem-remove_at (suc i) (suc j) (x ∷ xs) h e =
    get_elem-remove_at i j xs (omega (arith, h)) (omega (arith, e))

hold_pin-throws :
    (i : ℕ) (p : Point) (a : Annot) → get_elem? a.comments i ≡ none → (hold_pin i p a).1 ≡ true
unfolding hold_pin
hold_pin-throws i p a h = rw (h, hold_pin) refl

-- A pin's text was deleted and the last pin is pressed: the deleted pin is removed first, and its
-- place in the list is read that is no longer there. The handler throws.
pub on_annot_down-throws :
    (a : Annot) (e : Editing) (j : ℕ) (p : Point) (now : ℕ)
    → a.active ≡ true
    → a.editing ≡ some e
    → is_set (trim e.value) ≡ false
    → (e.idx == j) ≡ false
    → e.idx < length a.comments
    → suc j ≡ length a.comments
    → is_double j now a.last_pin_click ≡ false
    → (on_annot_down (pin_wrap j) p now a).1 ≡ true
unfolding on_annot_down down_on_pin finalize_editing_pin
on_annot_down-throws a e j p now active editing blank other i last once =
    simp (active, once, editing, other, blank)
      (hold_pin-throws j p _ (get_elem-remove_at e.idx j a.comments i last))

-- ===== src/Annot/Drag.antt =====
-- Where a pin comes to that is dragged.
use ar_automation_agent.Prelude.{
  ℕ, zero, suc, ◌≡◌, ◌≢◌, refl, sym, subst, ap, ◌∙◌, true, false, some, List, [], ◌∷◌, ◌++◌, map,
  get_elem?,
}
use ar_automation_agent.Prelude.Int.{◌+ℤ◌, int_laws}
use ar_automation_agent.Annot.State.{Point, Comment, pin, Annot, change_at}
use ar_automation_agent.Annot.Pointer.{moves, placed, moved_by, move_pin, on_annot_move, step, run}

-- A pin that is held, once the pointer has gone far enough.
abbrev pub held : ℕ → Point → Point → List Comment → Annot → Annot
held i start at cs a = record a { comments = cs; pointer = some (pin i start at true) }

change_at-twice {ℓ} :
    {A : Type ℓ} (i : ℕ) (f g : A → A) (xs : List A)
    → ((x : A) → f (g x) ≡ f x)
    → change_at i f (change_at i g xs) ≡ change_at i f xs
unfolding change_at
change_at-twice i f g [] h = refl
change_at-twice zero f g (x ∷ xs) h = ap (λ y. y ∷ xs) (h x)
change_at-twice (suc i) f g (x ∷ xs) h = ap (λ z. x ∷ z) (change_at-twice i f g xs h)

get_elem-change_at {ℓ} :
    {A : Type ℓ} (i : ℕ) (f : A → A) (xs : List A) (x : A)
    → get_elem? xs i ≡ some x
    → get_elem? (change_at i f xs) i ≡ some (f x)
unfolding change_at
get_elem-change_at i f [] x h = cc
get_elem-change_at zero f (y ∷ ys) x h = let same : y ≡ x = cc in ap (λ z. some (f z)) same
get_elem-change_at (suc i) f (y ∷ ys) x h = get_elem-change_at i f ys x h

get_elem-change_at_other {ℓ} :
    {A : Type ℓ} (i j : ℕ) (f : A → A) (xs : List A)
    → j ≢ i
    → get_elem? (change_at i f xs) j ≡ get_elem? xs j
unfolding change_at
get_elem-change_at_other i j f [] h = refl
get_elem-change_at_other zero zero f (x ∷ xs) h = absurd (h refl)
get_elem-change_at_other zero (suc j) f (x ∷ xs) h = refl
get_elem-change_at_other (suc i) zero f (x ∷ xs) h = refl
get_elem-change_at_other (suc i) (suc j) f (x ∷ xs) h =
    get_elem-change_at_other i j f xs (λ e. h (ap suc e))

moved_by-x : (start p at : Point) → (moved_by start p at).x +ℤ start.x ≡ at.x +ℤ p.x
unfolding moved_by
moved_by-x start p at = omega int_laws

moved_by-y : (start p at : Point) → (moved_by start p at).y +ℤ start.y ≡ at.y +ℤ p.y
unfolding moved_by
moved_by-y start p at = omega int_laws

-- In the second list the pin is as far from its first place as `p` is from `start`; its text and the
-- other pins are those of the first list.
abbrev pub Moved : ℕ → Point → Point → Point → Comment → List Comment → List Comment → Type 0
Moved i start at p c before after =
    ((d : Comment) × (get_elem? after i ≡ some d)
      × (d.at.x +ℤ start.x ≡ at.x +ℤ p.x)
      × (d.at.y +ℤ start.y ≡ at.y +ℤ p.y)
      × (d.text ≡ c.text))
    × ((j : ℕ) → j ≢ i → get_elem? after j ≡ get_elem? before j)

change_at-Moved :
    (i : ℕ) (start at p : Point) (cs : List Comment) (c : Comment)
    → get_elem? cs i ≡ some c
    → Moved i start at p c cs (change_at i (placed (moved_by start p at)) cs)
change_at-Moved i start at p cs c h = (
  (
    placed (moved_by start p at) c,
    get_elem-change_at i (placed (moved_by start p at)) cs c h,
    moved_by-x start p at,
    moved_by-y start p at,
    refl,
  ),
  (λ j other. get_elem-change_at_other i j (placed (moved_by start p at)) cs other),
)

-- The state is one in which the overlay is shown and no placeholder is resized.
module _ (a : Annot) (active : a.active ≡ true) (resizing : a.resizing ≡ false) where
  move-held :
      (i : ℕ) (start at p : Point) (cs : List Comment) (c : Comment)
      → get_elem? cs i ≡ some c
      → on_annot_move p (held i start at cs a)
        ≡ held i start at (change_at i (placed (moved_by start p at)) cs) a
  unfolding on_annot_move move_pin
  move-held i start at p cs c h = simp (active, resizing, h) refl

  moves-held :
      (i : ℕ) (start at p : Point) (ps : List Point) (cs : List Comment) (c : Comment)
      → get_elem? cs i ≡ some c
      → run (map moves ps ++ moves p ∷ []) (held i start at cs a)
        ≡ held i start at (change_at i (placed (moved_by start p at)) cs) a
  unfolding run step
  moves-held i start at p [] cs c h = move-held i start at p cs c h
  moves-held i start at p (q ∷ ps) cs c h =
      let moved = change_at i (placed (moved_by start q at)) cs in
      ap (run (map moves ps ++ moves p ∷ [])) (move-held i start at q cs c h)
      ∙ moves-held i start at p ps moved _
          (get_elem-change_at i (placed (moved_by start q at)) cs c h)
      ∙ ap (λ z. held i start at z a) (change_at-twice i _ _ cs (λ x. refl))

  -- While the overlay is shown and nothing is resized, a drag that has begun depends on its last
  -- position only: whatever way the pointer took, the pin ends as far to the right and as far below
  -- the place where it was taken up as the pointer is from where it took the pin up, with its text,
  -- and every other pin is as it was.
  pub run-held :
      (i : ℕ) (start at p : Point) (ps : List Point) (cs : List Comment) (c : Comment)
      → get_elem? cs i ≡ some c
      → Moved i start at p c cs (run (map moves ps ++ moves p ∷ []) (held i start at cs a)).comments
  run-held i start at p ps cs c h =
      subst (λ (z : Annot). Moved i start at p c cs z.comments)
        (sym (moves-held i start at p ps cs c h)) (change_at-Moved i start at p cs c h)

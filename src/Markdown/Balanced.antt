-- ===== src/Markdown/Balanced.antt =====
-- The lists of the markdown close what they open.
use ar_automation_agent.Prelude.{
  ℕ, zero, suc, ◌+◌, ◌-◌, ◌≤◌, ◌≡◌, refl, ap, ◌∙◌, Option, none, some, List, [], ◌∷◌, ◌++◌, ltb,
  arith, if_cases,
}
use ar_automation_agent.Markdown.Lists.{
  Item, Part, opens, closes, holds, repeated, steps_to, item_parts, list_parts,
}

-- How many lists are open behind some parts; none where one closes that is not open.
abbrev pub depth : ℕ → List Part → Option ℕ
depth n [] = some n
depth n (opens ∷ ps) = depth (suc n) ps
depth zero (closes ∷ ps) = none
depth (suc n) (closes ∷ ps) = depth n ps
depth n (holds t ∷ ps) = depth n ps

-- No item is indented by more than one step against the one before.
abbrev pub IsStepwise : ℕ → List Item → Type 0
IsStepwise last [] = Unit
IsStepwise last (i ∷ is) = (i.indent ≤ suc last) × IsStepwise i.indent is

depth-repeated : (n m k : ℕ) (ps : List Part) → k ≡ n + m → depth k (repeated n ++ ps) ≡ depth m ps
unfolding repeated
depth-repeated zero m k ps h = ap (λ z. depth z ps) (omega (arith, h))
depth-repeated (suc n) m zero ps h = ground (arith, h)
depth-repeated (suc n) m (suc k) ps h = depth-repeated n m k ps (omega (arith, h))

depth-steps_to :
    (last indent : ℕ) (ps : List Part)
    → indent ≤ suc last
    → depth (suc last) (steps_to last indent ++ ps) ≡ depth (suc indent) ps
depth-steps_to last indent ps h =
    if_cases (λ (qs : List Part). depth (suc last) (qs ++ ps) ≡ depth (suc indent) ps)
      (ltb last indent) _ _ (λ deeper. ap (λ z. depth z ps) (ground (arith, deeper, h)))
      (λ not_deeper.
        if_cases (λ (qs : List Part). depth (suc last) (qs ++ ps) ≡ depth (suc indent) ps)
          (ltb indent last) _ _
          (λ back. depth-repeated (last - indent) (suc indent) (suc last) ps (ground (arith, back)))
          (λ not_back. ap (λ z. depth z ps) (ground (arith, not_deeper, not_back))))

depth-item_parts :
    (last : ℕ) (items : List Item)
    → IsStepwise last items
    → depth (suc last) (item_parts last items) ≡ some 0
unfolding item_parts
depth-item_parts last [] h = closed (suc last)
  where
    closed : (n : ℕ) → depth n (repeated n) ≡ some 0
    closed zero = refl
    closed (suc n) = closed n
depth-item_parts last (i ∷ is) (h, hs) =
    depth-steps_to last i.indent _ h ∙ depth-item_parts i.indent is hs

-- A list of the markdown closes every list that it opens, and none that is not open, where no item is
-- indented by more than one step against the one before, the first by one at most.
pub depth-list_parts :
    (items : List Item) → IsStepwise 0 items → depth 0 (list_parts items) ≡ some 0
unfolding list_parts
depth-list_parts items h = depth-item_parts 0 items h

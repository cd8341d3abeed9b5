-- ===== src/Css/Selectors.antt =====
-- A list of selectors that are well formed, with strings, brackets and commas in them.
use ar_automation_agent.Prelude.{
  ℕ, suc, ◌≡◌, refl, sym, ap, ◌∙◌, Bool, true, false, not, ◌&&◌, Option, none, some, List, [], ◌∷◌,
  ◌++◌, subst, ◌==◌, All, arith,
}
use ar_automation_agent.Prelude.Text.{Text, join}
use ar_automation_agent.Css.Scan.{list_step, cuts, split_css_selector_list}
use ar_automation_agent.Css.Parts.{
  parts, prepend, prepend-cons, append_nil, split_css_selector_list-parts,
}
use ar_automation_agent.Css.Passes.{
  IsInner, IsQuote, Opens, Closes, IsOther, outside, Passes, IsDeep, cons-Passes, append-Passes,
  string-Passes, cuts-IsDeep, other_step, quote_step, open_step, close_step,
}

-- A selector, or what stands in brackets, where there may be commas: strings, bracketed texts and
-- other characters.
pub data IsSelector : Bool → Text → Type 0 where
  nothing : {nested : Bool} → IsSelector nested []
  other :
      {nested : Bool} {t : Text} (c : ℕ)
      → IsOther c
      → (not nested && c == 44) ≡ false
      → IsSelector nested t
      → IsSelector nested (c ∷ t)
  quoted :
      {nested : Bool} {t : Text} (q : ℕ) (body : Text)
      → IsQuote q
      → All (IsInner q) body
      → IsSelector nested t
      → IsSelector nested (q ∷ body ++ q ∷ t)
  bracketed :
      {nested : Bool} {inner t : Text} (o c : ℕ)
      → Opens o
      → Closes c
      → IsSelector true inner
      → IsSelector nested t
      → IsSelector nested (o ∷ inner ++ c ∷ t)

suc-IsDeep : (n : ℕ) → IsDeep true (suc n)
suc-IsDeep n = omega arith

selector-Passes :
    {nested : Bool} {t : Text}
    → IsSelector nested t
    → (d : ℕ) (prev : Option ℕ) → IsDeep nested d
    → Passes d t (outside d prev)
selector-Passes nothing d prev deep = (prev, λ u. refl)
selector-Passes (other {nested} {t} c plain comma h) d prev deep =
    cons-Passes d c t (outside d prev) (cuts-IsDeep nested c d prev deep comma)
      (subst (Passes d t) (sym (other_step c d prev plain)) (selector-Passes h d (some c) deep))
selector-Passes (quoted {nested} {t} q body is inner h) d prev deep =
    let (opened, on, plain) = quote_step q d prev is in
    cons-Passes d q (body ++ q ∷ t) (outside d prev) on (
      subst (Passes d (body ++ q ∷ t)) (sym opened)
        (string-Passes q d d (some q) body t plain inner (selector-Passes h d (some q) deep)))
selector-Passes (bracketed {nested} {inner} {t} o c opens closes within h) d prev deep =
    let (opened, on) = open_step o d prev opens in
    cons-Passes d o (inner ++ c ∷ t) (outside d prev) on (
      subst (Passes d (inner ++ c ∷ t)) (sym opened) (
        append-Passes (suc d) d inner (c ∷ t) (outside (suc d) (some o))
          (selector-Passes within (suc d) (some o) (suc-IsDeep d))
          (λ p.
            let (closed, past) = close_step c d p closes in
            cons-Passes d c t (outside (suc d) p) past
              (subst (Passes d t) (sym closed) (selector-Passes h d (some c) deep)))))

parts-join :
    (prev : Option ℕ) (w : Text) (ws : List Text)
    → All (IsSelector false) (w ∷ ws)
    → parts (outside 0 prev) (join 44 (w ∷ ws)) ≡ w ∷ ws
unfolding join parts cuts list_step
parts-join prev w [] (h, hs) =
    let (last, over) = selector-Passes h 0 prev tt in
    ap (parts (outside 0 prev)) (sym (append_nil w))
    ∙ over []
    ∙ prepend-cons w [] []
    ∙ ap (λ z. z ∷ []) (append_nil w)
parts-join prev w (v ∷ ws) (h, hs) =
    let (last, over) = selector-Passes h 0 prev tt in
    over (44 ∷ join 44 (v ∷ ws))
    ∙ ap (λ z. prepend w ([] ∷ z)) (parts-join (some 44) v ws hs)
    ∙ prepend-cons w [] (v ∷ ws)
    ∙ ap (λ z. z ∷ v ∷ ws) (append_nil w)

-- A list of selectors that are well formed, joined by commas, is split into just these selectors,
-- whatever commas, brackets and quotes stand in their strings, and whatever commas in their brackets:
-- where brackets are closed, and no backslash stands in a string.
pub split_css_selector_list-join :
    (w : Text) (ws : List Text)
    → All (IsSelector false) (w ∷ ws)
    → split_css_selector_list (join 44 (w ∷ ws)) ≡ w ∷ ws
split_css_selector_list-join w ws h =
    split_css_selector_list-parts (join 44 (w ∷ ws)) ∙ parts-join none w ws h

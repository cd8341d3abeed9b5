-- ===== src/Css/Braces.antt =====
-- Where a block ends.
use ar_automation_agent.Prelude.{
  ℕ, zero, suc, ◌+◌, ◌≤◌, ◌≡◌, refl, sym, ap, subst, ◌∙◌, Option, some, [], ◌∷◌, arith, get_elem?,
  drop, ◌==◌, ==_iff, if_cases, both_of_and,
}
use ar_automation_agent.Prelude.Text.{Text}
use ar_automation_agent.Css.Scan.{Braces, brace_step, closes, find_from, find_matching_css_brace}

find_from-at :
    (s : Braces) (i j : ℕ) (t : Text)
    → find_from s i t ≡ some j
    → (n : ℕ) × (j ≡ i + n) × (get_elem? t n ≡ some 125)
unfolding find_from closes
find_from-at s i j [] e = cc
find_from-at s i j (c ∷ cs) e =
    if_cases
      (λ (o : Option ℕ). o ≡ some j → (n : ℕ) × (j ≡ i + n) × (get_elem? (c ∷ cs) n ≡ some 125))
      (closes c s) (some i) (find_from (brace_step c s) (suc i) cs)
      (λ h e.
        let here : i ≡ j = cc in
        let brace : c ≡ 125 = (==_iff c 125).0 (both_of_and (c == 125) _ h).0 in
        (0, omega arith, ap some brace))
      (λ _ e.
        let (n, at, found) = find_from-at (brace_step c s) (suc i) j cs e in
        (suc n, omega arith, found))
      e

get_elem-drop : (t : Text) (i n : ℕ) → get_elem? (drop i t) n ≡ get_elem? t (i + n)
get_elem-drop t zero n = ap (get_elem? t) (omega arith)
get_elem-drop [] (suc i) n = refl
get_elem-drop (c ∷ cs) (suc i) n =
    let step : suc i + n ≡ suc (i + n) = omega arith in
    get_elem-drop cs i n ∙ ap (get_elem? (c ∷ cs)) (sym step)

-- What is found for an opening brace is a closing brace, at its place or behind it.
pub find_matching_css_brace-at :
    (css : Text) (from close : ℕ)
    → find_matching_css_brace css from ≡ some close
    → (from ≤ close) × (get_elem? css close ≡ some 125)
unfolding find_matching_css_brace
find_matching_css_brace-at css from close e =
    let (n, at, found) = find_from-at _ from close (drop from css) e in
    (
      omega arith,
      subst (λ z. get_elem? css z ≡ some 125) (sym at) (sym (get_elem-drop css from n) ∙ found),
    )

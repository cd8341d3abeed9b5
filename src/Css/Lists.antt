-- ===== src/Css/Lists.antt =====
-- A list of selectors without strings and brackets.
use ar_automation_agent.Prelude.{
  ℕ, ◌≡◌, refl, ◌∙◌, Bool, true, false, ◌&&◌, ◌||◌, Option, none, some, [], ◌∷◌, All, ◌==◌,
}
use ar_automation_agent.Prelude.Text.{Text, split}
use ar_automation_agent.Css.Parts.{parts, split_css_selector_list-parts}
use ar_automation_agent.Css.Scan.{start, list_step, is_quote, cuts, split_css_selector_list}

-- No quote and no bracket.
abbrev pub IsPlain : ℕ → Type 0
IsPlain c = (is_quote c ≡ false) × ((c == 40 || c == 91) ≡ false) × ((c == 41 || c == 93) ≡ false)

-- Between the characters of a plain list only the last one changes.
list_step-plain : (prev : Option ℕ) (c : ℕ) → IsPlain c → list_step c (start prev) ≡ start (some c)
unfolding list_step
list_step-plain prev c (q, o, e) = simp (q, o, e)

and_true : (b : Bool) → (b && true) ≡ b
and_true true = refl
and_true false = refl

parts-plain : (prev : Option ℕ) (t : Text) → All IsPlain t → parts (start prev) t ≡ split 44 t
unfolding parts split cuts
parts-plain prev [] h = refl
parts-plain prev (c ∷ cs) (h, hs) =
    simp (list_step-plain prev c h, parts-plain (some c) cs hs, and_true) refl

-- Without strings and brackets, the list is split at each comma.
pub split_css_selector_list-plain :
    (t : Text) → All IsPlain t → split_css_selector_list t ≡ split 44 t
split_css_selector_list-plain t h = split_css_selector_list-parts t ∙ parts-plain none t h

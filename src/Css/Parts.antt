-- ===== src/Css/Parts.antt =====
-- The parts of a list of selectors, said without indices.
use ar_automation_agent.Prelude.{
  ℕ, zero, suc, ◌+◌, ◌-◌, ◌≡◌, refl, sym, ap, ◌∙◌, none, List, [], ◌∷◌, ◌++◌, length, length-append,
  take, drop, Bool-cases, inl, inr, if◌then◌else◌, arith,
}
use ar_automation_agent.Prelude.Text.{Text, on_first}
use ar_automation_agent.Css.Scan.{
  Scan, start, list_step, cuts, slice, split_from, split_css_selector_list,
}

-- The parts of what is left of the list, the first of them from here on.
unfoldable pub parts : Scan → Text → List Text
parts s [] = [] ∷ []
parts s (c ∷ cs) =
    let rest = parts (list_step c s) cs in if cuts c s then [] ∷ rest else on_first c rest

-- A text before the first part.
abbrev pub prepend : Text → List Text → List Text
prepend [] ws = ws
prepend (c ∷ cs) ws = on_first c (prepend cs ws)

pub prepend-cons : (w v : Text) (vs : List Text) → prepend w (v ∷ vs) ≡ (w ++ v) ∷ vs
prepend-cons [] v vs = refl
prepend-cons (c ∷ w) v vs = ap (on_first c) (prepend-cons w v vs)

prepend-snoc :
    (w : Text) (c : ℕ) (ws : List Text) → prepend (w ++ c ∷ []) ws ≡ prepend w (on_first c ws)
prepend-snoc [] c ws = refl
prepend-snoc (d ∷ w) c ws = ap (on_first d) (prepend-snoc w c ws)

pub append_nil : (w : Text) → w ++ [] ≡ w
append_nil [] = refl
append_nil (c ∷ w) = ap (λ z. c ∷ z) (append_nil w)

snoc-append : (w t : Text) (c : ℕ) → w ++ c ∷ t ≡ (w ++ c ∷ []) ++ t
snoc-append [] t c = refl
snoc-append (d ∷ w) t c = ap (λ z. d ∷ z) (snoc-append w t c)

take-length : (w t : Text) → take (length w) (w ++ t) ≡ w
take-length [] t = refl
take-length (c ∷ w) t = ap (λ z. c ∷ z) (take-length w t)

drop-suc : (n : ℕ) (css t : Text) (c : ℕ) → drop n css ≡ c ∷ t → drop (suc n) css ≡ t
drop-suc zero [] t c e = cc
drop-suc zero (d ∷ css) t c e = cc
drop-suc (suc n) [] t c e = cc
drop-suc (suc n) (d ∷ css) t c e = drop-suc n css t c e

slice-part :
    (css w t : Text) (from i : ℕ)
    → drop from css ≡ w ++ t
    → i ≡ from + length w
    → slice css from i ≡ w
slice-part css w t from i e f =
    let same : i - from ≡ length w = omega (arith, f) in rw (same, e) (take-length w t)

-- The indices find what consing builds up: `w` is the part so far, and `t` what is left.
split_from-parts :
    (css : Text) (from i : ℕ) (s : Scan) (w t : Text)
    → drop from css ≡ w ++ t
    → drop i css ≡ t
    → i ≡ from + length w
    → split_from css from i s t ≡ prepend w (parts s t)
unfolding split_from parts
split_from-parts css from i s w [] e h f = ap (λ z. z ∷ []) e ∙ sym (prepend-cons w [] [])
split_from-parts css from i s w (c ∷ cs) e h f =
    let next : drop (suc i) css ≡ cs = drop-suc i css cs c h in
    elim (Bool-cases (cuts c s)) [
      | inl cut ↦ rw cut (
          ap (λ z. z ∷ split_from css (suc i) (suc i) (list_step c s) cs)
            (slice-part css w (c ∷ cs) from i e f)
          ∙ ap (λ z. w ∷ z)
              (split_from-parts css (suc i) (suc i) (list_step c s) [] cs next next (omega arith))
          ∙ ap (λ z. z ∷ parts (list_step c s) cs) (sym (append_nil w))
          ∙ sym (prepend-cons w [] (parts (list_step c s) cs)))
      | inr on ↦ rw on (
          split_from-parts css from (suc i) (list_step c s) (w ++ c ∷ []) cs
            (e ∙ snoc-append w cs c) next (omega (arith, f, length-append w (c ∷ [])))
          ∙ prepend-snoc w c (parts (list_step c s) cs))
    ]

pub split_css_selector_list-parts :
    (css : Text) → split_css_selector_list css ≡ parts (start none) css
unfolding split_css_selector_list
split_css_selector_list-parts css =
    split_from-parts css 0 0 (start none) [] css refl refl (omega arith)

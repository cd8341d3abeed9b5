-- ===== src/Css/Tests.antt =====
-- Runs of the scans, and their theorems at concrete inputs.
use ar_automation_agent.Prelude.{◌≡◌, refl, some, [], ◌∷◌, inl, inr, false}
use ar_automation_agent.Prelude.Text.{Text, codes, join}
use ar_automation_agent.Css.Scan.{
  list_step, cuts, split_from, split_css_selector_list, brace_step, closes, find_from,
  find_matching_css_brace,
}
use ar_automation_agent.Css.Selectors.{
  IsSelector, nothing, other, quoted, bracketed, split_css_selector_list-join,
}

-- The comma in the brackets and the one in the string stay.
abbrev selectors : Text
selectors = codes ":is(a,b),c[d=\",\"]"

splits : split_css_selector_list selectors ≡ codes ":is(a,b)" ∷ codes "c[d=\",\"]" ∷ []
unfolding split_css_selector_list split_from list_step cuts
splits = refl

is_part : IsSelector false (codes ":is(a,b)")
is_part =
    other 58 (refl, refl, refl) refl
      (other 105 (refl, refl, refl) refl
        (other 115 (refl, refl, refl) refl
          (bracketed 40 41 (inl refl) (inl refl)
            (other 97 (refl, refl, refl) refl
              (other 44 (refl, refl, refl) refl (other 98 (refl, refl, refl) refl nothing)))
            nothing)))

is_string : IsSelector false (codes "c[d=\",\"]")
is_string =
    other 99 (refl, refl, refl) refl
      (bracketed 91 93 (inr refl) (inr refl)
        (other 100 (refl, refl, refl) refl
          (other 61 (refl, refl, refl) refl
            (quoted 34 (44 ∷ []) (inl refl) ((refl, refl), tt) nothing)))
        nothing)

split_css_selector_list-join_example :
    split_css_selector_list (join 44 (codes ":is(a,b)" ∷ codes "c[d=\",\"]" ∷ []))
    ≡ codes ":is(a,b)" ∷ codes "c[d=\",\"]" ∷ []
split_css_selector_list-join_example =
    split_css_selector_list-join (codes ":is(a,b)") (codes "c[d=\",\"]" ∷ [])
      (is_part, (is_string, tt))

abbrev block : Text
block = codes "a{b{}'}'}c"

-- The brace in the string does not count.
finds : find_matching_css_brace block 1 ≡ some 8
unfolding find_matching_css_brace find_from brace_step closes
finds = refl

-- ===== src/Css/Scan.antt =====
-- `splitCssSelectorList` and `findMatchingCssBrace` of live-browser.js.
use ar_automation_agent.Prelude.{
  ℕ, zero, suc, ◌-◌, Bool, true, false, not, ◌&&◌, ◌||◌, Option, none, some, List, [], ◌∷◌, ltb,
  ◌==◌, take, drop, if◌then◌else◌,
}
use ar_automation_agent.Prelude.Text.{Text}

abbrev pub is_quote : ℕ → Bool
is_quote c = c == 34 || c == 39

abbrev pub is_at : Option ℕ → ℕ → Bool
is_at none c = false
is_at (some d) c = d == c

-- What is kept from one character to the next: the quote that is open, the depth, and the character.
pub record Scan : Type 0 where
  pub quote : Option ℕ
  pub depth : ℕ
  pub prev : Option ℕ

abbrev pub start : Option ℕ → Scan
start prev = record { quote = none; depth = 0; prev = prev }

-- In a string: a quote that no backslash stands before ends it.
abbrev pub in_string : ℕ → ℕ → Scan → Scan
in_string q c s = record s {
  quote = if c == q && not (is_at s.prev 92) then none else some q;
  prev = some c;
}

abbrev pub list_char : ℕ → Scan → Scan
list_char c s =
    if is_quote c
    then record s { quote = some c; prev = some c }
    else if c == 40 || c == 91
    then record s { depth = suc s.depth; prev = some c }
    else if (c == 41 || c == 93) && ltb 0 s.depth
    then record s { depth = s.depth - 1; prev = some c }
    else record s { prev = some c }

unfoldable pub list_step : ℕ → Scan → Scan
list_step c s = elim s.quote [ some q ↦ in_string q c s | none ↦ list_char c s ]

abbrev pub is_none : Option ℕ → Bool
is_none none = true
is_none (some q) = false

-- A comma outside of strings and brackets.
unfoldable pub cuts : ℕ → Scan → Bool
cuts c s = c == 44 && (is_none s.quote && s.depth == 0)

-- `css.slice(from, to)`, where `from` is no larger.
abbrev pub slice : Text → ℕ → ℕ → Text
slice css from to = take (to - from) (drop from css)

-- The loop at `i`, where the part begins at `from` and `cs` are the characters from `i` on.
unfoldable pub split_from : Text → ℕ → ℕ → Scan → Text → List Text
split_from css from i s [] = drop from css ∷ []
split_from css from i s (c ∷ cs) =
    let rest = split_from css (if cuts c s then suc i else from) (suc i) (list_step c s) cs in
    if cuts c s then slice css from i ∷ rest else rest

unfoldable pub split_css_selector_list : Text → List Text
split_css_selector_list css = split_from css 0 0 (start none) css

-- The depth is the number of the braces that were opened less that of those that were closed, and it
-- may fall below 0.
pub record Braces : Type 0 where
  pub quote : Option ℕ
  pub opened : ℕ
  pub closed : ℕ
  pub prev : Option ℕ

abbrev pub brace_string : ℕ → ℕ → Braces → Braces
brace_string q c s = record s {
  quote = if c == q && not (is_at s.prev 92) then none else some q;
  prev = some c;
}

abbrev pub brace_char : ℕ → Braces → Braces
brace_char c s =
    if is_quote c
    then record s { quote = some c; prev = some c }
    else if c == 123
    then record s { opened = suc s.opened; prev = some c }
    else if c == 125
    then record s { closed = suc s.closed; prev = some c }
    else record s { prev = some c }

unfoldable pub brace_step : ℕ → Braces → Braces
brace_step c s = elim s.quote [ some q ↦ brace_string q c s | none ↦ brace_char c s ]

-- A closing brace outside of strings that brings the depth to 0.
unfoldable pub closes : ℕ → Braces → Bool
closes c s = c == 125 && (is_none s.quote && s.opened == suc s.closed)

-- The index is counted from that of the first character; none is -1.
unfoldable pub find_from : Braces → ℕ → Text → Option ℕ
find_from s i [] = none
find_from s i (c ∷ cs) =
    let rest = find_from (brace_step c s) (suc i) cs in if closes c s then some i else rest

abbrev pub before_at : Text → ℕ → Option ℕ
before_at s zero = none
before_at [] (suc i) = none
before_at (c ∷ cs) (suc zero) = some c
before_at (c ∷ cs) (suc (suc i)) = before_at cs (suc i)

unfoldable pub find_matching_css_brace : Text → ℕ → Option ℕ
find_matching_css_brace css from =
    find_from (record { quote = none; opened = 0; closed = 0; prev = before_at css from }) from
      (drop from css)

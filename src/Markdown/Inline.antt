-- ===== src/Markdown/Inline.antt =====
-- `escapeHtml` and `inlineMd` of live-browser.js.
use ar_automation_agent.Prelude.{
  ℕ, zero, suc, Bool, true, false, not, ◌||◌, Option, none, some, [], ◌∷◌, ◌++◌, length, ◌==◌,
  if◌then◌else◌,
}
use ar_automation_agent.Prelude.Text.{Text, codes, is_set}

-- `s.replace(/c/g, r)`
unfoldable pub replace_char : ℕ → Text → Text → Text
replace_char c r [] = []
replace_char c r (d ∷ ds) = let rest = replace_char c r ds in if d == c then r ++ rest else d ∷ rest

unfoldable pub escape_html : Text → Text
unfolding replace_char
escape_html s = replace_char 39 (codes "&#39;") (
    replace_char 34 (codes "&quot;") (
      replace_char 62 (codes "&gt;")
        (replace_char 60 (codes "&lt;") (replace_char 38 (codes "&amp;") s))))

-- A match at a place: what it is replaced by, and the text behind it.
abbrev pub Match : Type 0
Match = Option (Text × Text)

-- `s.replace(regex, f)` with the flag `g`, of a regular expression that takes one character at least.
-- The fuel is the length of the text. The test tells whether the place is the start.
unfoldable pub replace_all : (Bool → Text → Match) → ℕ → Bool → Text → Text
replace_all find zero start s = s
replace_all find (suc k) start [] = []
replace_all find (suc k) start (c ∷ cs) = elim (find start (c ∷ cs)) [
  | none ↦ c ∷ replace_all find k false cs
  | some (r, rest) ↦ r ++ replace_all find k false rest
]

-- The longest start without some characters, one at least, with the text behind it.
unfoldable pub span : (ℕ → Bool) → Text → Text × Text
span p [] = ([], [])
span p (c ∷ cs) = let rest = span p cs in if p c then (c ∷ rest.0, rest.1) else ([], c ∷ cs)

abbrev pub is_not : ℕ → ℕ → Bool
is_not c d = not (d == c)

-- What stands behind one character.
abbrev pub after_char : ℕ → Text → Option Text
after_char c [] = none
after_char c (d ∷ ds) = if d == c then some ds else none

-- `([^c]+)c`
unfoldable pub upto : ℕ → Text → Match
unfolding span
upto c s =
    let run = span (is_not c) s in
    if is_set run.0
    then elim (after_char c run.1) [ none ↦ none | some rest ↦ some (run.0, rest) ]
    else none

abbrev pub wrapped : Text → Text → Match → Match
wrapped before behind none = none
wrapped before behind (some (t, rest)) = some (before ++ (t ++ behind), rest)

-- /`([^`]+)`/
unfoldable pub code_span : Bool → Text → Match
unfolding upto
code_span start [] = none
code_span start (c ∷ cs) =
    if c == 96 then wrapped (codes "<code>") (codes "</code>") (upto 96 cs) else none

abbrev pub link_html : Text → Text → Text
link_html t u =
    codes "<a href=\""
    ++ (u ++ (codes "\" target=\"_blank\" rel=\"noopener noreferrer\">" ++ (t ++ codes "</a>")))

abbrev pub link_target : Text → Option Text → Match
link_target t none = none
link_target t (some s) = elim (upto 41 s) [
  | none ↦ none
  | some (u, rest) ↦ some (link_html t u, rest)
]

abbrev pub link_text : Match → Match
link_text none = none
link_text (some (t, rest)) = link_target t (after_char 40 rest)

-- /\[([^\]]+)\]\(([^)]+)\)/
unfoldable pub link : Bool → Text → Match
unfolding upto
link start [] = none
link start (c ∷ cs) = if c == 91 then link_text (upto 93 cs) else none

-- A match that ends in one more star.
abbrev pub with_star : Match → Match
with_star none = none
with_star (some (t, rest)) = elim (after_char 42 rest) [ none ↦ none | some more ↦ some (t, more) ]

abbrev pub after_star : Option Text → Match
after_star none = none
after_star (some s) = wrapped (codes "<strong>") (codes "</strong>") (with_star (upto 42 s))

-- /\*\*([^*]+)\*\*/
unfoldable pub bold : Bool → Text → Match
unfolding upto
bold start [] = none
bold start (c ∷ cs) = if c == 42 then after_star (after_char 42 cs) else none

abbrev pub starts_star : Text → Bool
starts_star [] = false
starts_star (c ∷ cs) = c == 42

abbrev pub is_star_or_break : ℕ → Bool
is_star_or_break c = c == 42 || c == 10

-- /\*([^*\n]+)\*(?!\*)/, behind its first star and with the text before it.
abbrev pub emphasis : Text → Option Text → Match
emphasis before none = none
emphasis before (some s) =
    let run = span (λ c. not (is_star_or_break c)) s in
    if is_set run.0
    then elim (after_char 42 run.1) [
      | none ↦ none
      | some rest ↦
          if starts_star rest
          then none
          else some (before ++ (codes "<em>" ++ (run.0 ++ codes "</em>")), rest)
    ]
    else none

-- /(^|[^*])\*([^*\n]+)\*(?!\*)/
unfoldable pub italic : Bool → Text → Match
unfolding span
italic start [] = none
italic start (c ∷ cs) =
    if c == 42
    then (if start then emphasis [] (some cs) else none)
    else emphasis (c ∷ []) (after_char 42 cs)

abbrev pub replaced : (Bool → Text → Match) → Text → Text
replaced find s = replace_all find (length s) true s

unfoldable pub inline_md : Text → Text
unfolding escape_html replace_all code_span link bold italic
inline_md text =
    replaced italic (replaced bold (replaced link (replaced code_span (escape_html text))))

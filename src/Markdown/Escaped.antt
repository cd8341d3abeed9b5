-- ===== src/Markdown/Escaped.antt =====
-- Text is escaped before it becomes HTML.
use ar_automation_agent.Prelude.{
  ℕ, ◌≡◌, refl, sym, ap, ◌∙◌, subst, Bool, true, false, ◌||◌, [], ◌∷◌, ◌++◌, some_of, arith, ◌==◌,
  if◌then◌else◌, Bool-cases, inl, inr, none_of_or,
}
use mathlib.Core.List.{append_assoc}
use ar_automation_agent.Prelude.Text.{Text, codes}
use ar_automation_agent.Markdown.Inline.{replace_char, escape_html}

-- What a character becomes, each by itself.
abbrev pub entity : ℕ → Text
entity c =
    if c == 38
    then codes "&amp;"
    else if c == 60
    then codes "&lt;"
    else if c == 62
    then codes "&gt;"
    else if c == 34
    then codes "&quot;"
    else if c == 39
    then codes "&#39;"
    else c ∷ []

abbrev pub each : Text → Text
each [] = []
each (c ∷ cs) = entity c ++ each cs

replace-append :
    (c : ℕ) (r s t : Text) → replace_char c r (s ++ t) ≡ replace_char c r s ++ replace_char c r t
unfolding replace_char
replace-append c r [] t = refl
replace-append c r (d ∷ ds) t = elim (Bool-cases (d == c)) [
  | inl e ↦ rw e (ap (λ z. r ++ z) (replace-append c r ds t) ∙ sym (append_assoc r _ _))
  | inr e ↦ rw e (ap (λ z. d ∷ z) (replace-append c r ds t))
]

escape-append : (s t : Text) → escape_html (s ++ t) ≡ escape_html s ++ escape_html t
unfolding escape_html
escape-append s t =
    let amp = codes "&amp;" in
    let lt = codes "&lt;" in
    let gt = codes "&gt;" in
    let quot = codes "&quot;" in
    let apos = codes "&#39;" in
    let s1 = replace_char 38 amp s in
    let t1 = replace_char 38 amp t in
    let s2 = replace_char 60 lt s1 in
    let t2 = replace_char 60 lt t1 in
    let s3 = replace_char 62 gt s2 in
    let t3 = replace_char 62 gt t2 in
    ap
      (λ z. replace_char 39 apos (replace_char 34 quot (replace_char 62 gt (replace_char 60 lt z))))
      (replace-append 38 amp s t)
    ∙ ap (λ z. replace_char 39 apos (replace_char 34 quot (replace_char 62 gt z)))
        (replace-append 60 lt s1 t1)
    ∙ ap (λ z. replace_char 39 apos (replace_char 34 quot z)) (replace-append 62 gt s2 t2)
    ∙ ap (λ z. replace_char 39 apos z) (replace-append 34 quot s3 t3)
    ∙ replace-append 39 apos (replace_char 34 quot s3) (replace_char 34 quot t3)

escape-entity : (c : ℕ) → escape_html (c ∷ []) ≡ entity c
unfolding escape_html replace_char
escape-entity c = elim (Bool-cases (c == 38)) [
  | inl e ↦ special 38 e refl
  | inr e1 ↦ elim (Bool-cases (c == 60)) [
    | inl e ↦ special 60 e refl
    | inr e2 ↦ elim (Bool-cases (c == 62)) [
      | inl e ↦ special 62 e refl
      | inr e3 ↦ elim (Bool-cases (c == 34)) [
        | inl e ↦ special 34 e refl
        | inr e4 ↦ elim (Bool-cases (c == 39)) [
          | inl e ↦ special 39 e refl
          | inr e5 ↦ rw (e1, e2, e3, e4, e5) refl
        ]
      ]
    ]
  ]
]
  where
    special :
        (n : ℕ)
        → (c == n) ≡ true
        → escape_html (n ∷ []) ≡ entity n
        → escape_html (c ∷ []) ≡ entity c
    special n e h =
        let same : n ≡ c = ground (arith, e) in subst (λ z. escape_html (z ∷ []) ≡ entity z) same h

escape-each : (s : Text) → escape_html s ≡ each s
unfolding escape_html replace_char
escape-each [] = refl
escape-each (c ∷ cs) =
    escape-append (c ∷ []) cs
    ∙ ap (λ z. z ++ escape_html cs) (escape-entity c)
    ∙ ap (λ z. entity c ++ z) (escape-each cs)

-- A character that opens or closes a tag or the value of an attribute.
abbrev pub is_markup : ℕ → Bool
is_markup c = c == 60 || (c == 62 || (c == 34 || c == 39))

abbrev pub has_markup : Text → Bool
has_markup = some_of is_markup

entity-markup : (c : ℕ) → has_markup (entity c) ≡ false
entity-markup c = ground arith

markup-append :
    (s t : Text) → has_markup s ≡ false → has_markup t ≡ false → has_markup (s ++ t) ≡ false
markup-append [] t h k = k
markup-append (c ∷ cs) t h k =
    let (one, rest) = none_of_or (is_markup c) _ h in rw one (markup-append cs t rest k)

each-markup : (s : Text) → has_markup (each s) ≡ false
each-markup [] = refl
each-markup (c ∷ cs) = markup-append (entity c) (each cs) (entity-markup c) (each-markup cs)

-- The five replacements one behind the other do what replacing every character by its own entity does,
-- and no character is left that opens or closes a tag or the value of an attribute.
pub escape_html-each : (s : Text) → (escape_html s ≡ each s) × (has_markup (escape_html s) ≡ false)
escape_html-each s = (escape-each s, rw (escape-each s) (each-markup s))

-- ===== src/Markdown/Fuel.antt =====
-- The replacements of the markdown come to their end.
use ar_automation_agent.Prelude.{
  ℕ, zero, suc, ◌≤◌, ◌≡◌, refl, ap, Bool, true, false, not, Option, none, some, [], ◌∷◌, ◌++◌,
  length, arith, ◌==◌, if◌then◌else◌, if_cases, ◌⊎◌, inl, inr,
}
use ar_automation_agent.Prelude.Text.{Text, codes, is_set}
use ar_automation_agent.Markdown.Inline.{
  Match, replace_all, span, is_not, after_char, upto, wrapped, code_span, link_html, link_target,
  link_text, link, with_star, after_star, bold, starts_star, is_star_or_break, emphasis, italic,
}

-- What stands behind a match is no longer than a bound.
abbrev pub IsWithin : ℕ → Match → Type 0
IsWithin n none = Unit
IsWithin n (some (r, rest)) = length rest ≤ n

abbrev IsCut : ℕ → Option Text → Type 0
IsCut n none = Unit
IsCut n (some rest) = length rest ≤ n

-- A match takes one character at least.
abbrev pub IsShrinking : (Bool → Text → Match) → Type 0
IsShrinking find = (start : Bool) (c : ℕ) (cs : Text) → IsWithin (length cs) (find start (c ∷ cs))

span-le : (p : ℕ → Bool) (s : Text) → length (span p s).1 ≤ length s
unfolding span
span-le p [] = omega arith
span-le p (c ∷ cs) = ground (arith, span-le p cs)

after_char-IsCut : (c : ℕ) (s : Text) (n : ℕ) → length s ≤ n → IsCut n (after_char c s)
after_char-IsCut c [] n h = tt
after_char-IsCut c (d ∷ ds) n h = if_cases (IsCut n) (d == c) _ _ (λ _. omega (arith, h)) (λ _. tt)

upto-IsWithin : (c : ℕ) (s : Text) (n : ℕ) → length s ≤ n → IsWithin n (upto c s)
unfolding upto
upto-IsWithin c s n h =
    let run = span (is_not c) s in
    if_cases (IsWithin n) (is_set run.0) _ _
      (λ _.
        found run.0 (after_char c run.1)
          (after_char-IsCut c run.1 n (omega (arith, span-le (is_not c) s, h))))
      (λ _. tt)
  where
    found :
        (t : Text) (o : Option Text)
        → IsCut n o
        → IsWithin n (elim o [ none ↦ none | some rest ↦ some (t, rest) ])
    found t none k = tt
    found t (some rest) k = k

wrapped-IsWithin :
    (before behind : Text) (m : Match) (n : ℕ) → IsWithin n m → IsWithin n (wrapped before behind m)
wrapped-IsWithin before behind none n h = tt
wrapped-IsWithin before behind (some (t, rest)) n h = h

code_span-IsShrinking : IsShrinking code_span
unfolding code_span
code_span-IsShrinking start c cs =
    if_cases (IsWithin (length cs)) (c == 96) _ _
      (λ _.
        wrapped-IsWithin (codes "<code>") (codes "</code>") (upto 96 cs) (length cs)
          (upto-IsWithin 96 cs (length cs) (omega arith)))
      (λ _. tt)

target-IsWithin : (t : Text) (o : Option Text) (n : ℕ) → IsCut n o → IsWithin n (link_target t o)
target-IsWithin t none n h = tt
target-IsWithin t (some s) n h = linked (upto 41 s) (upto-IsWithin 41 s n h)
  where
    linked :
        (m : Match)
        → IsWithin n m
        → IsWithin n (elim m [ none ↦ none | some (u, rest) ↦ some (link_html t u, rest) ])
    linked none k = tt
    linked (some (u, rest)) k = k

text-IsWithin : (m : Match) (n : ℕ) → IsWithin n m → IsWithin n (link_text m)
text-IsWithin none n h = tt
text-IsWithin (some (t, rest)) n h =
    target-IsWithin t (after_char 40 rest) n (after_char-IsCut 40 rest n h)

link-IsShrinking : IsShrinking link
unfolding link
link-IsShrinking start c cs =
    if_cases (IsWithin (length cs)) (c == 91) _ _
      (λ _. text-IsWithin (upto 93 cs) (length cs) (upto-IsWithin 93 cs (length cs) (omega arith)))
      (λ _. tt)

star-IsWithin : (m : Match) (n : ℕ) → IsWithin n m → IsWithin n (with_star m)
star-IsWithin none n h = tt
star-IsWithin (some (t, rest)) n h = closed (after_char 42 rest) (after_char-IsCut 42 rest n h)
  where
    closed :
        (o : Option Text)
        → IsCut n o
        → IsWithin n (elim o [ none ↦ none | some more ↦ some (t, more) ])
    closed none k = tt
    closed (some more) k = k

after_star-IsWithin : (o : Option Text) (n : ℕ) → IsCut n o → IsWithin n (after_star o)
after_star-IsWithin none n h = tt
after_star-IsWithin (some s) n h =
    wrapped-IsWithin (codes "<strong>") (codes "</strong>") (with_star (upto 42 s)) n
      (star-IsWithin (upto 42 s) n (upto-IsWithin 42 s n h))

bold-IsShrinking : IsShrinking bold
unfolding bold
bold-IsShrinking start c cs =
    if_cases (IsWithin (length cs)) (c == 42) _ _
      (λ _.
        after_star-IsWithin (after_char 42 cs) (length cs)
          (after_char-IsCut 42 cs (length cs) (omega arith)))
      (λ _. tt)

emphasis-IsWithin :
    (before : Text) (o : Option Text) (n : ℕ) → IsCut n o → IsWithin n (emphasis before o)
emphasis-IsWithin before none n h = tt
emphasis-IsWithin before (some s) n h =
    let run = span (λ c. not (is_star_or_break c)) s in
    if_cases (IsWithin n) (is_set run.0) _ _
      (λ _.
        closed run.0 (after_char 42 run.1) (
          after_char-IsCut 42 run.1 n
            (omega (arith, span-le (λ c. not (is_star_or_break c)) s, h))))
      (λ _. tt)
  where
    closed :
        (t : Text) (o : Option Text)
        → IsCut n o
        → IsWithin n (elim o [
          | none ↦ none
          | some rest ↦
              if starts_star rest
              then none
              else some (before ++ (codes "<em>" ++ (t ++ codes "</em>")), rest)
        ])
    closed t none k = tt
    closed t (some rest) k = if_cases (IsWithin n) (starts_star rest) _ _ (λ _. tt) (λ _. k)

italic-IsShrinking : IsShrinking italic
unfolding italic
italic-IsShrinking start c cs =
    if_cases (IsWithin (length cs)) (c == 42) _ _
      (λ _.
        if_cases (IsWithin (length cs)) start _ _
          (λ _. emphasis-IsWithin [] (some cs) (length cs) (omega arith)) (λ _. tt))
      (λ _.
        emphasis-IsWithin (c ∷ []) (after_char 42 cs) (length cs)
          (after_char-IsCut 42 cs (length cs) (omega arith)))

-- What follows a match, or its absence, is the same on both fuels.
at_match :
    (find : Bool → Text → Match) (k j c : ℕ) (cs : Text)
    → ((rest : Text)
        → length rest ≤ length cs
        → replace_all find k false rest ≡ replace_all find j false rest)
    → (m : Match) → IsWithin (length cs) m
    → (elim m [
      | none ↦ c ∷ replace_all find k false cs
      | some (r, rest) ↦ r ++ replace_all find k false rest
    ])
      ≡ (elim m [
        | none ↦ c ∷ replace_all find j false cs
        | some (r, rest) ↦ r ++ replace_all find j false rest
      ])
at_match find k j c cs h none w = ap (λ z. c ∷ z) (h cs (omega arith))
at_match find k j c cs h (some (r, rest)) w = ap (λ z. r ++ z) (h rest w)

-- Every fuel that is not shorter than the text gives the same.
replace_all-same :
    (find : Bool → Text → Match)
    → IsShrinking find
    → (k j : ℕ) (start : Bool) (s : Text) → length s ≤ k
    → length s ≤ j
    → replace_all find k start s ≡ replace_all find j start s
unfolding replace_all
replace_all-same find h zero zero start s a b = refl
replace_all-same find h zero (suc j) start [] a b = refl
replace_all-same find h (suc k) zero start [] a b = refl
replace_all-same find h (suc k) (suc j) start [] a b = refl
replace_all-same find h zero (suc j) start (c ∷ cs) a b = ground (arith, a)
replace_all-same find h (suc k) zero start (c ∷ cs) a b = ground (arith, b)
replace_all-same find h (suc k) (suc j) start (c ∷ cs) a b =
    at_match find k j c cs
      (λ rest w. replace_all-same find h k j false rest (omega (arith, a, w)) (omega (arith, b, w)))
      (find start (c ∷ cs)) (h start c cs)

-- The length of a text is fuel enough to replace the code, the links, the bold and the italic texts in
-- it: any larger fuel gives the same.
pub replace_all-enough :
    (find : Bool → Text → Match) (k : ℕ) (s : Text)
    → (find ≡ code_span) ⊎ ((find ≡ link) ⊎ ((find ≡ bold) ⊎ (find ≡ italic)))
    → length s ≤ k
    → replace_all find k true s ≡ replace_all find (length s) true s
replace_all-enough find k s which h =
    replace_all-same find (shrinks which) k (length s) true s h (omega arith)
  where
    shrinks :
        (find ≡ code_span) ⊎ ((find ≡ link) ⊎ ((find ≡ bold) ⊎ (find ≡ italic))) → IsShrinking find
    shrinks (inl e) = rw e code_span-IsShrinking
    shrinks (inr (inl e)) = rw e link-IsShrinking
    shrinks (inr (inr (inl e))) = rw e bold-IsShrinking
    shrinks (inr (inr (inr e))) = rw e italic-IsShrinking

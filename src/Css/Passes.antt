-- ===== src/Css/Passes.antt =====
-- How the scan of `splitCssSelectorList` goes over strings, brackets and other characters.
use mathlib.Core.List.{append_assoc}
use ar_automation_agent.Prelude.{
  ℕ, suc, ◌<◌, ◌≡◌, refl, sym, ap, ◌∙◌, Bool, true, false, not, ◌&&◌, ◌||◌, Option, none, some,
  List, [], ◌∷◌, ◌++◌, inl, inr, ◌⊎◌, subst, ◌==◌, All, arith,
}
use ar_automation_agent.Prelude.Text.{Text, on_first}
use ar_automation_agent.Css.Scan.{Scan, is_at, list_step, cuts}
use ar_automation_agent.Css.Parts.{parts, prepend}

-- Not the quote, and no backslash.
abbrev pub IsInner : ℕ → ℕ → Type 0
IsInner q c = ((c == q) ≡ false) × ((c == 92) ≡ false)

abbrev pub IsQuote : ℕ → Type 0
IsQuote q = (q ≡ 34) ⊎ (q ≡ 39)

abbrev pub Opens : ℕ → Type 0
Opens c = (c ≡ 40) ⊎ (c ≡ 91)

abbrev pub Closes : ℕ → Type 0
Closes c = (c ≡ 41) ⊎ (c ≡ 93)

-- No quote and no bracket.
abbrev pub IsOther : ℕ → Type 0
IsOther c =
    ((c == 34 || c == 39) ≡ false) × ((c == 40 || c == 91) ≡ false) × ((c == 41 || c == 93) ≡ false)

abbrev pub outside : ℕ → Option ℕ → Scan
outside d prev = record { quote = none; depth = d; prev = prev }

abbrev pub inside : ℕ → ℕ → Option ℕ → Scan
inside q d prev = record { quote = some q; depth = d; prev = prev }

-- The scan goes over the text without a cut, to the depth `e` and out of strings.
abbrev pub Passes : ℕ → Text → Scan → Type 0
Passes e t s =
    (prev : Option ℕ) × ((u : Text) → parts s (t ++ u) ≡ prepend t (parts (outside e prev) u))

pub cons-Passes :
    (e c : ℕ) (t : Text) (s : Scan)
    → cuts c s ≡ false
    → Passes e t (list_step c s)
    → Passes e (c ∷ t) s
unfolding parts
cons-Passes e c t s h (prev, rest) = (prev, λ u. rw h (ap (on_first c) (rest u)))

prepend-append : (t u : Text) (ws : List Text) → prepend (t ++ u) ws ≡ prepend t (prepend u ws)
prepend-append [] u ws = refl
prepend-append (c ∷ t) u ws = ap (on_first c) (prepend-append t u ws)

pub append-Passes :
    (d e : ℕ) (t u : Text) (s : Scan)
    → Passes d t s
    → ((prev : Option ℕ) → Passes e u (outside d prev))
    → Passes e (t ++ u) s
append-Passes d e t u s (prev, first) second =
    let (last, rest) = second prev in
    (
      last,
      λ v.
          ap (parts s) (append_assoc t u v)
          ∙ first (u ++ v)
          ∙ ap (prepend t) (rest v)
          ∙ sym (prepend-append t u (parts (outside e last) v)),
    )

string_step :
    (q c d : ℕ) (prev : Option ℕ)
    → (c == q) ≡ false
    → list_step c (inside q d prev) ≡ inside q d (some c)
unfolding list_step
string_step q c d prev h = simp h refl

string_end :
    (q d : ℕ) (prev : Option ℕ)
    → is_at prev 92 ≡ false
    → list_step q (inside q d prev) ≡ outside d (some q)
unfolding list_step
string_end q d prev h = let same : (q == q) ≡ true = ground arith in simp (same, h) refl

cuts-inside : (q c d : ℕ) (prev : Option ℕ) → cuts c (inside q d prev) ≡ false
unfolding cuts
cuts-inside q c d prev = ground arith

pub string-Passes :
    (q d e : ℕ) (prev : Option ℕ) (body t : Text)
    → is_at prev 92 ≡ false
    → All (IsInner q) body
    → Passes e t (outside d (some q))
    → Passes e (body ++ q ∷ t) (inside q d prev)
string-Passes q d e prev [] t p h k =
    cons-Passes e q t (inside q d prev) (cuts-inside q q d prev)
      (subst (Passes e t) (sym (string_end q d prev p)) k)
string-Passes q d e prev (c ∷ body) t p ((apart, plain), hs) k =
    cons-Passes e c (body ++ q ∷ t) (inside q d prev) (cuts-inside q c d prev) (
      subst (Passes e (body ++ q ∷ t)) (sym (string_step q c d prev apart))
        (string-Passes q d e (some c) body t plain hs k))

cuts-other : (c d : ℕ) (prev : Option ℕ) → (c == 44) ≡ false → cuts c (outside d prev) ≡ false
unfolding cuts
cuts-other c d prev h = simp h refl

cuts-deep : (c d : ℕ) (prev : Option ℕ) → 0 < d → cuts c (outside d prev) ≡ false
unfolding cuts
cuts-deep c d prev h = ground arith

-- In brackets the depth is above 0.
abbrev pub IsDeep : Bool → ℕ → Type 0
IsDeep false d = Unit
IsDeep true d = 0 < d

pub cuts-IsDeep :
    (nested : Bool) (c d : ℕ) (prev : Option ℕ)
    → IsDeep nested d
    → (not nested && c == 44) ≡ false
    → cuts c (outside d prev) ≡ false
cuts-IsDeep false c d prev deep h = cuts-other c d prev h
cuts-IsDeep true c d prev deep h = cuts-deep c d prev deep

pub other_step :
    (c d : ℕ) (prev : Option ℕ) → IsOther c → list_step c (outside d prev) ≡ outside d (some c)
unfolding list_step
other_step c d prev (q, o, e) = simp (q, o, e) refl

pub quote_step :
    (q d : ℕ) (prev : Option ℕ)
    → IsQuote q
    → (list_step q (outside d prev) ≡ inside q d (some q))
      × (cuts q (outside d prev) ≡ false)
      × (is_at (some q) 92 ≡ false)
unfolding list_step cuts
quote_step q d prev (inl e) = rw e (refl, refl, refl)
quote_step q d prev (inr e) = rw e (refl, refl, refl)

pub open_step :
    (o d : ℕ) (prev : Option ℕ)
    → Opens o
    → (list_step o (outside d prev) ≡ outside (suc d) (some o)) × (cuts o (outside d prev) ≡ false)
unfolding list_step cuts
open_step o d prev (inl e) = rw e (refl, refl)
open_step o d prev (inr e) = rw e (refl, refl)

pub close_step :
    (c d : ℕ) (prev : Option ℕ)
    → Closes c
    → (list_step c (outside (suc d) prev) ≡ outside d (some c))
      × (cuts c (outside (suc d) prev) ≡ false)
unfolding list_step cuts
close_step c d prev (inl e) = rw e (ground arith, refl)
close_step c d prev (inr e) = rw e (ground arith, refl)

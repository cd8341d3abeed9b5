-- ===== src/Prelude/Text.antt =====
-- Text as the code units that a program walks, with the string methods that the code uses.
use Prim.Native.Char.{code}
use Prim.Native.String.{String}
use Prim.Native.Nat.{ℕ, ◌+◌}
use mathlib.Core.Path.{◌≡◌, refl, sym, ap, ◌∙◌}
use mathlib.Core.Bool.{Bool, true, false, ◌&&◌, ◌||◌}
use mathlib.Core.Option.{Option, none, some}
use mathlib.Core.List.{List, [], ◌∷◌, ◌++◌, reverse, reverse-append, reverse-reverse}
use native.Mathlib.Omega.{arith}
use ar_automation_agent.Prelude.Tests.{◌==◌, ltb, none_of_or, if◌then◌else◌}
use ar_automation_agent.Prelude.Lists.{some_of, All}

abbrev pub Text : Type 0
Text = List ℕ

abbrev pub codes : String → Text
codes String.[] = []
codes (String.◌∷◌ c s) = code c ∷ codes s

-- `a === b`
unfoldable pub text_eq : Text → Text → Bool
text_eq [] [] = true
text_eq [] (y ∷ ys) = false
text_eq (x ∷ xs) [] = false
text_eq (x ∷ xs) (y ∷ ys) = x == y && text_eq xs ys

pub eq_of_text_eq : (a b : Text) → text_eq a b ≡ true → a ≡ b
unfolding text_eq
eq_of_text_eq [] [] h = refl
eq_of_text_eq [] (y ∷ ys) h = cc
eq_of_text_eq (x ∷ xs) [] h = cc
eq_of_text_eq (x ∷ xs) (y ∷ ys) h = ground (arith, eq_of_text_eq xs ys)

pub text_eq_refl : (a : Text) → text_eq a a ≡ true
unfolding text_eq
text_eq_refl [] = refl
text_eq_refl (x ∷ xs) = ground (arith, text_eq_refl xs)

-- `s.startsWith(p)`
unfoldable pub starts_with : Text → Text → Bool
starts_with [] s = true
starts_with (p ∷ ps) [] = false
starts_with (p ∷ ps) (c ∷ cs) = p == c && starts_with ps cs

-- `s.includes(p)`
unfoldable pub includes : Text → Text → Bool
unfolding starts_with
includes p [] = starts_with p []
includes p (c ∷ cs) = starts_with p (c ∷ cs) || includes p cs

-- White space of `trim` and of `\s`, in ASCII and the no-break space.
abbrev pub is_space : ℕ → Bool
is_space c = (ltb 8 c && ltb c 14) || c == 32 || c == 160

unfoldable pub trim_start : Text → Text
trim_start [] = []
trim_start (c ∷ cs) = if is_space c then trim_start cs else c ∷ cs

-- `s.trim()`
unfoldable pub trim : Text → Text
unfolding trim_start
trim s = reverse (trim_start (reverse (trim_start s)))

-- Truth of a string: it is not empty.
abbrev pub is_set : Text → Bool
is_set [] = false
is_set (c ∷ cs) = true

-- `s || d`, of a string that may be missing.
abbrev pub or_text : Option Text → Text → Text
or_text none d = d
or_text (some s) d = if is_set s then s else d

-- The number of words, `s.split(/\s+/).filter(Boolean).length`: a word starts at a code unit that
-- is no space, behind a space or at the start.
unfoldable pub word_count : Bool → Text → ℕ
word_count inside [] = 0
word_count inside (c ∷ cs) =
    let rest = word_count (if is_space c then false else true) cs in
    if is_space c then rest else if inside then rest else 1 + rest

-- `s.endsWith(p)`
unfoldable pub ends_with : Text → Text → Bool
unfolding text_eq
ends_with p [] = text_eq [] p
ends_with p (c ∷ cs) = text_eq (c ∷ cs) p || ends_with p cs

-- `s.split(sep)`, for one code unit: always one part at least.
abbrev pub on_first : ℕ → List Text → List Text
on_first c [] = (c ∷ []) ∷ []
on_first c (w ∷ ws) = (c ∷ w) ∷ ws

unfoldable pub split : ℕ → Text → List Text
split sep [] = [] ∷ []
split sep (c ∷ cs) = let rest = split sep cs in if c == sep then [] ∷ rest else on_first c rest

-- `ws.join(sep)`, for one code unit.
unfoldable pub join : ℕ → List Text → Text
join sep [] = []
join sep (w ∷ []) = w
join sep (w ∷ v ∷ ws) = w ++ sep ∷ join sep (v ∷ ws)

-- `s.toLowerCase()`, of ASCII.
unfoldable pub lower : Text → Text
lower [] = []
lower (c ∷ cs) = (if ltb 64 c && ltb c 91 then c + 32 else c) ∷ lower cs

-- `s.indexOf(c)` with what stands before and behind it.
unfoldable pub cut_at : ℕ → Text → Option (Text × Text)
cut_at sep [] = none
cut_at sep (c ∷ cs) =
    if c == sep
    then some ([], cs)
    else elim (cut_at sep cs) [ none ↦ none | some (a, b) ↦ some (c ∷ a, b) ]

-- A text without a code unit.
abbrev pub IsFree : ℕ → Text → Type 0
IsFree c t = some_of (λ d. d == c) t ≡ false

pub split-free : (c : ℕ) (w : Text) → IsFree c w → split c w ≡ w ∷ []
unfolding split
split-free c [] h = refl
split-free c (d ∷ ds) h =
    let (one, rest) = none_of_or (d == c) _ h in rw (one, split-free c ds rest) refl

pub split-cut : (c : ℕ) (w t : Text) → IsFree c w → split c (w ++ c ∷ t) ≡ w ∷ split c t
unfolding split
split-cut c [] t h = let here : (c == c) ≡ true = ground arith in rw here refl
split-cut c (d ∷ ds) t h =
    let (one, rest) = none_of_or (d == c) _ h in rw (one, split-cut c ds t rest) refl

-- Words without the separator are split as they were joined.
pub split-join :
    (c : ℕ) (w : Text) (ws : List Text)
    → All (IsFree c) (w ∷ ws)
    → split c (join c (w ∷ ws)) ≡ w ∷ ws
unfolding join
split-join c w [] (h, hs) = split-free c w h
split-join c w (v ∷ ws) (h, hs) =
    split-cut c w (join c (v ∷ ws)) h ∙ ap (λ z. w ∷ z) (split-join c v ws hs)

-- Where no white space stands at the ends, `trim` changes nothing.
pub trim-plain :
    (t s : Text) (d : ℕ) → trim_start t ≡ t → t ≡ s ++ d ∷ [] → is_space d ≡ false → trim t ≡ t
unfolding trim trim_start
trim-plain t s d start e h =
    let back : reverse t ≡ d ∷ reverse s = ap reverse e ∙ reverse-append s (d ∷ []) in
    let kept : trim_start (d ∷ reverse s) ≡ d ∷ reverse s = rw h refl in
    ap (λ z. reverse (trim_start (reverse z))) start
    ∙ ap (λ z. reverse (trim_start z)) back
    ∙ ap reverse (kept ∙ sym back)
    ∙ reverse-reverse t

-- ===== src/Ignores/Fuel.antt =====
-- The loop over a glob comes to its end.
use native.Mathlib.Nat.{le_refl}
use ar_automation_agent.Prelude.{
  ℕ, zero, suc, ◌≤◌, ◌≡◌, refl, ap, Option, none, some, [], ◌∷◌, length, arith, ◌==◌, if_cases,
}
use ar_automation_agent.Prelude.Text.{Text, cut_at, split}
use ar_automation_agent.Ignores.Glob.{
  Piece, literal, choice_of, parse_parts, star_pieces, brace_pieces, next_piece, add_piece, pieces,
  glob_to_regex,
}

abbrev IsBelow : Text → Option Piece × Text → Type 0
IsBelow cs r = length r.1 ≤ length cs

abbrev IsCutBelow : Text → Option (Text × Text) → Type 0
IsCutBelow cs none = 0 ≤ length cs
IsCutBelow cs (some (a, b)) = length b ≤ length cs

cut_at-IsCutBelow : (sep : ℕ) (cs : Text) → IsCutBelow cs (cut_at sep cs)
unfolding cut_at
cut_at-IsCutBelow sep [] = omega arith
cut_at-IsCutBelow sep (c ∷ cs) =
    if_cases (IsCutBelow (c ∷ cs)) (c == sep) _ _ (λ _. omega arith)
      (λ _. longer (cut_at sep cs) (cut_at-IsCutBelow sep cs))
  where
    longer :
        (o : Option (Text × Text))
        → IsCutBelow cs o
        → IsCutBelow (c ∷ cs) (elim o [ none ↦ none | some (a, b) ↦ some (c ∷ a, b) ])
    longer none h = omega arith
    longer (some (a, b)) h = omega arith

brace_pieces-IsBelow : (cs : Text) → IsBelow cs (brace_pieces cs)
brace_pieces-IsBelow cs = inner (cut_at 125 cs) (cut_at-IsCutBelow 125 cs)
  where
    inner :
        (o : Option (Text × Text))
        → IsCutBelow cs o
        → IsBelow cs (elim o [
          | none ↦ (some (literal 123), cs)
          | some (a, b) ↦ (choice_of (parse_parts (split 44 a)), b)
        ])
    inner none h = le_refl (length cs)
    inner (some (a, b)) h = h

star_pieces-IsBelow : (cs : Text) → IsBelow cs (star_pieces cs)
star_pieces-IsBelow [] = omega arith
star_pieces-IsBelow (c ∷ []) =
    if_cases (IsBelow (c ∷ [])) (c == 42) _ _ (λ _. omega arith) (λ _. omega arith)
star_pieces-IsBelow (c ∷ d ∷ cs) =
    if_cases (IsBelow (c ∷ d ∷ cs)) (c == 42) _ _
      (λ _.
        if_cases (λ (t : Text). length t ≤ length (c ∷ d ∷ cs)) (d == 47) cs (d ∷ cs)
          (λ _. omega arith) (λ _. omega arith))
      (λ _. omega arith)

next_piece-IsBelow : (c : ℕ) (cs : Text) → IsBelow cs (next_piece c cs)
unfolding next_piece
next_piece-IsBelow c cs =
    if_cases (IsBelow cs) (c == 42) _ _ (λ _. star_pieces-IsBelow cs)
      (λ _.
        if_cases (IsBelow cs) (c == 63) _ _ (λ _. le_refl (length cs))
          (λ _.
            if_cases (IsBelow cs) (c == 123) _ _ (λ _. brace_pieces-IsBelow cs)
              (λ _. le_refl (length cs))))

pieces-fuel : (n m : ℕ) (g : Text) → length g ≤ n → length g ≤ m → pieces n g ≡ pieces m g
unfolding pieces
pieces-fuel zero zero g h k = refl
pieces-fuel zero (suc m) [] h k = refl
pieces-fuel (suc n) zero [] h k = refl
pieces-fuel (suc n) (suc m) [] h k = refl
pieces-fuel zero (suc m) (c ∷ cs) h k = ground arith
pieces-fuel (suc n) zero (c ∷ cs) h k = ground arith
pieces-fuel (suc n) (suc m) (c ∷ cs) h k =
    let below : length (next_piece c cs).1 ≤ length cs = next_piece-IsBelow c cs in
    ap (add_piece (next_piece c cs).0)
      (pieces-fuel n m (next_piece c cs).1 (omega arith) (omega arith))

-- As many turns as the glob is long are enough for its regular expression: more give the same.
pub pieces-enough : (n : ℕ) (g : Text) → length g ≤ n → pieces n g ≡ glob_to_regex g
unfolding glob_to_regex
pieces-enough n g h = pieces-fuel n (length g) g h (le_refl (length g))

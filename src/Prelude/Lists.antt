-- ===== src/Prelude/Lists.antt =====
-- Lists measured and indexed by native numbers, and predicates on their members by recursion.
use Prim.Native.Nat.{ℕ, zero, suc, ◌+◌, ◌-◌, ◌≤◌}
use mathlib.Core.Path.{◌≡◌, subst}
use mathlib.Core.Bool.{Bool, true, false, ◌||◌, ◌&&◌}
use mathlib.Core.List.{List, [], ◌∷◌, ◌++◌}
use mathlib.Core.Option.{Option, none, some}
use mathlib.Core.List.{Mem, mem-cons_self, mem-cons_of_mem}
use native.Mathlib.Omega.{arith}
use ar_automation_agent.Prelude.Tests.{if◌then◌else◌, Bool-cases}
use mathlib.Core.Logic.{inl, inr}

module _ {ℓ} {A : Type ℓ} where
  abbrev pub length : List A → ℕ
  length [] = 0
  length (x ∷ xs) = suc (length xs)

  abbrev pub get_elem? : List A → ℕ → Option A
  get_elem? [] i = none
  get_elem? (x ∷ xs) zero = some x
  get_elem? (x ∷ xs) (suc i) = get_elem? xs i

  abbrev pub take : ℕ → List A → List A
  take zero xs = []
  take (suc n) [] = []
  take (suc n) (x ∷ xs) = x ∷ take n xs

  abbrev pub drop : ℕ → List A → List A
  drop zero xs = xs
  drop (suc n) [] = []
  drop (suc n) (x ∷ xs) = drop n xs

  -- `xs.filter(p)` for a Boolean test.
  abbrev pub keep : (A → Bool) → List A → List A
  keep p [] = []
  keep p (x ∷ xs) = if p x then x ∷ keep p xs else keep p xs

  -- `xs.some(p)`.
  abbrev pub some_of : (A → Bool) → List A → Bool
  some_of p [] = false
  some_of p (x ∷ xs) = p x || some_of p xs

  -- `xs.every(p)`.
  abbrev pub every_of : (A → Bool) → List A → Bool
  every_of p [] = true
  every_of p (x ∷ xs) = p x && every_of p xs

  -- `xs.find(p)`.
  abbrev pub find_first : (A → Bool) → List A → Option A
  find_first p [] = none
  find_first p (x ∷ xs) = if p x then some x else find_first p xs

  abbrev pub All {κ} : (A → Type κ) → List A → Type κ
  All P [] = Unit
  All P (x ∷ xs) = P x × All P xs

  pub length-append : (xs ys : List A) → length (xs ++ ys) ≡ length xs + length ys
  length-append [] ys = omega arith
  length-append (x ∷ xs) ys = omega (arith, length-append xs ys)

  pub length-drop : (n : ℕ) (xs : List A) → length (drop n xs) ≡ length xs - n
  length-drop zero xs = omega arith
  length-drop (suc n) [] = omega arith
  length-drop (suc n) (x ∷ xs) = omega (arith, length-drop n xs)

  pub length-keep-le : (p : A → Bool) (xs : List A) → length (keep p xs) ≤ length xs
  length-keep-le p [] = omega arith
  length-keep-le p (x ∷ xs) = ground (arith, length-keep-le p xs)

module _ {ℓ κ} {A : Type ℓ} (P : A → Type κ) where
  pub All-append : (xs ys : List A) → All P xs → All P ys → All P (xs ++ ys)
  All-append [] ys h k = k
  All-append (x ∷ xs) ys h k = (h.0, All-append xs ys h.1 k)

  pub All-snoc : (xs : List A) (y : A) → All P xs → P y → All P (xs ++ y ∷ [])
  All-snoc xs y h k = All-append xs (y ∷ []) h (k, tt)

  -- The member in the middle, and the others.
  pub All-middle :
      (xs : List A) (y : A) (ys : List A) → All P (xs ++ y ∷ ys) → P y × All P (xs ++ ys)
  All-middle [] y ys h = h
  All-middle (x ∷ xs) y ys (h, hs) = let (one, rest) = All-middle xs y ys hs in (one, (h, rest))

  pub All-keep : (p : A → Bool) (xs : List A) → All P xs → All P (keep p xs)
  All-keep p [] h = tt
  All-keep p (x ∷ xs) h = elim (Bool-cases (p x)) [
    | inl e ↦ rw e (h.0, All-keep p xs h.1)
    | inr e ↦ rw e (All-keep p xs h.1)
  ]

  pub All-take : (n : ℕ) (xs : List A) → All P xs → All P (take n xs)
  All-take zero xs h = tt
  All-take (suc n) [] h = tt
  All-take (suc n) (x ∷ xs) h = (h.0, All-take n xs h.1)

  pub All-drop : (n : ℕ) (xs : List A) → All P xs → All P (drop n xs)
  All-drop zero xs h = h
  All-drop (suc n) [] h = tt
  All-drop (suc n) (x ∷ xs) h = All-drop n xs h.1

-- What `find` returns is a member that passes the test.
pub find_first-Mem {ℓ} :
    {A : Type ℓ} (p : A → Bool) (xs : List A) {x : A}
    → find_first p xs ≡ some x
    → Mem x xs × (p x ≡ true)
find_first-Mem p [] e = cc
find_first-Mem {A} p (y ∷ ys) {x} e = elim (Bool-cases (p y)) [
  | inl h ↦
      let t : some y ≡ some x = rw h at e in
      let q : y ≡ x = cc in
      (subst (λ z. Mem z (y ∷ ys)) q mem-cons_self, subst (λ z. p z ≡ true) q h)
  | inr h ↦ let (m, k) = find_first-Mem p ys (rw h at e) in (mem-cons_of_mem y m, k)
]

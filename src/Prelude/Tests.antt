-- ===== src/Prelude/Tests.antt =====
-- Boolean tests on the native numbers and on texts, and the conditional.
use Prim.Native.Nat.{ℕ, ◌≤◌, ◌<◌, compare, Ordering}
use mathlib.Core.Path.{◌≡◌, refl}
use mathlib.Core.Logic.{◌↔◌, ◌⊎◌, inl, inr}
use mathlib.Core.Bool.{Bool, true, false, not, ◌||◌, ◌&&◌}
use mathlib.Core.Option.{Option, none, some}
use native.Mathlib.Omega.{arith}

abbrev pub ltb : ℕ → ℕ → Bool
ltb a b = elim (compare a b) [ Ordering.lt ↦ true | _ ↦ false ]

abbrev pub leb : ℕ → ℕ → Bool
leb a b = elim (compare a b) [ Ordering.gt ↦ false | _ ↦ true ]

infix 50 ◌==◌
abbrev pub ◌==◌ : ℕ → ℕ → Bool
a == b = elim (compare a b) [ Ordering.eq ↦ true | _ ↦ false ]

infix 1 if◌then◌else◌
abbrev pub if◌then◌else◌ {ℓ} : {A : Type ℓ} → Bool → A → A → A
if true then x else y = x
if false then x else y = y

pub ltb→lt : (a b : ℕ) → ltb a b ≡ true → a < b
ltb→lt a b h = ground arith

pub lt→ltb : (a b : ℕ) → a < b → ltb a b ≡ true
lt→ltb a b h = ground arith

pub leb→le : (a b : ℕ) → leb a b ≡ true → a ≤ b
leb→le a b h = ground arith

pub ==_iff : (a b : ℕ) → ((a == b) ≡ true) ↔ (a ≡ b)
==_iff a b = ground arith

pub ruleset tests = (arith, ltb→lt, lt→ltb, leb→le)

-- To split on a computed value and keep the equation.
pub Bool-cases : (b : Bool) → (b ≡ true) ⊎ (b ≡ false)
Bool-cases true = inl refl
Bool-cases false = inr refl

pub Option-cases {ℓ} : {A : Type ℓ} (o : Option A) → (o ≡ none) ⊎ ((a : A) × (o ≡ some a))
Option-cases none = inl refl
Option-cases (some a) = inr (a, refl)

-- A ladder of three refusals that ends in a value.
pub ladder-eq-some {ℓ} :
    {A : Type ℓ} (p q r : Bool) (v w : A)
    → (if p then none else if q then none else if r then none else some v) ≡ some w
    → (p ≡ false) × (q ≡ false) × (r ≡ false) × (v ≡ w)
ladder-eq-some true q r v w h = cc
ladder-eq-some false true r v w h = cc
ladder-eq-some false false true v w h = cc
ladder-eq-some false false false v w h = (refl, refl, refl, cc)

-- `!a || !b` fails when both hold.
pub both_of_not_or : (a b : Bool) → (not a || not b) ≡ false → (a ≡ true) × (b ≡ true)
both_of_not_or true true h = (refl, refl)
both_of_not_or true false h = cc
both_of_not_or false b h = cc

pub both_of_and : (a b : Bool) → (a && b) ≡ true → (a ≡ true) × (b ≡ true)
both_of_and true true h = (refl, refl)
both_of_and true false h = cc
both_of_and false b h = cc

-- Case analysis on a conditional, with the test's value in each case.
pub if_cases {ℓ κ} :
    {A : Type ℓ} (P : A → Type κ) (b : Bool) (x y : A)
    → (b ≡ true → P x)
    → (b ≡ false → P y)
    → P (if b then x else y)
if_cases P true x y p q = p refl
if_cases P false x y p q = q refl

-- A value under one guard.
pub guard-eq-some {ℓ} :
    {A : Type ℓ} (b : Bool) (o : Option A) {w : A}
    → (if b then o else none) ≡ some w
    → (b ≡ true) × (o ≡ some w)
guard-eq-some true o e = (refl, e)
guard-eq-some false o e = cc

pub not-eq-true : (b : Bool) → not b ≡ true → b ≡ false
not-eq-true true h = cc
not-eq-true false h = refl

pub not-eq-false : (b : Bool) → not b ≡ false → b ≡ true
not-eq-false true h = refl
not-eq-false false h = cc

pub none_of_or : (a b : Bool) → (a || b) ≡ false → (a ≡ false) × (b ≡ false)
none_of_or true b h = cc
none_of_or false b h = (refl, h)

pub and_both : (a b : Bool) → a ≡ true → b ≡ true → (a && b) ≡ true
and_both true b h k = k
and_both false b h k = h

pub or_left : (a b : Bool) → a ≡ true → (a || b) ≡ true
or_left true b h = refl
or_left false b h = cc

pub or_right : (a b : Bool) → b ≡ true → (a || b) ≡ true
or_right true b h = refl
or_right false b h = h

pub or_cases : (a b : Bool) → (a || b) ≡ true → (a ≡ true) ⊎ (b ≡ true)
or_cases true b h = inl refl
or_cases false b h = inr h

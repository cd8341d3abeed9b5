-- ===== src/Refs/Decimal.antt =====
-- The decimal number of `:nth-of-type` is read back.
use ar_automation_agent.Prelude.{
  ℕ, zero, suc, ◌+◌, ◌-◌, ◌*◌, ◌<◌, ◌≡◌, refl, Bool, true, false, none, some, [], ◌∷◌, ◌++◌, All,
  some_of, arith, ltb, ◌/◌, ◌%◌, if_cases,
}
use ar_automation_agent.Prelude.Text.{Text}
use ar_automation_agent.Refs.Document.{emit, number_text}
use ar_automation_agent.Refs.Query.{is_digit, nth_close}

abbrev IsDigit : ℕ → Type 0
IsDigit c = is_digit c ≡ true

abbrev value : ℕ → Text → ℕ
value n [] = n
value n (c ∷ cs) = value (n * 10 + (c - 48)) cs

value-emit : (k n : ℕ) (out : Text) → n < k → value 0 (emit k n out) ≡ value n out
unfolding emit
value-emit zero n out h = ground arith
value-emit (suc k) n out h = grind (arith, value-emit k (n / 10) ((48 + n % 10) ∷ out))

emit-IsDigit : (k n : ℕ) (out : Text) → n < k → All IsDigit out → All IsDigit (emit k n out)
unfolding emit
emit-IsDigit zero n out h ds = ground arith
emit-IsDigit (suc k) n out h ds =
    if_cases (All IsDigit) (ltb n 10) _ _ (λ small. (ground (arith, small), ds))
      (λ large. emit-IsDigit k (n / 10) _ (ground (arith, h, large)) (ground arith, ds))

-- Some digits and the closing parenthesis.
close-digits :
    (m : ℕ) (ds : Text) → All IsDigit ds → nth_close (some m) (ds ++ 41 ∷ []) ≡ some (value m ds)
unfolding nth_close
close-digits m [] h = refl
close-digits m (d ∷ ds) (h, hs) = rw h (close-digits (m * 10 + (d - 48)) ds hs)

-- It takes one digit at least.
abbrev IsNonempty : Text → Type 0
IsNonempty ds = (d : ℕ) × (rest : Text) × (ds ≡ d ∷ rest)

emit-IsNonempty : (k n : ℕ) (out : Text) → n < k → IsNonempty (emit k n out)
unfolding emit
emit-IsNonempty zero n out h = ground arith
emit-IsNonempty (suc k) n out h =
    if_cases IsNonempty (ltb n 10) _ _ (λ small. (48 + n, out, refl))
      (λ large. emit-IsNonempty k (n / 10) _ (ground (arith, h, large)))

close-none :
    (ds : Text)
    → IsNonempty ds
    → All IsDigit ds
    → nth_close none (ds ++ 41 ∷ []) ≡ some (value 0 ds)
unfolding nth_close
close-none [] (d, rest, e) h = cc
close-none (d ∷ ds) w (h, hs) = rw h (close-digits _ ds hs)

pub close-number : (n : ℕ) → nth_close none (number_text n ++ 41 ∷ []) ≡ some n
unfolding number_text
close-number n =
    let below : n < suc n = omega arith in
    rw
      (
        close-none (emit (suc n) n []) (emit-IsNonempty (suc n) n [] below)
            (emit-IsDigit (suc n) n [] below tt),
        value-emit (suc n) n [] below,
      )
      refl

digits-plain :
    (p : ℕ → Bool) (ds : Text)
    → ((d : ℕ) → IsDigit d → p d ≡ false)
    → All IsDigit ds
    → some_of p ds ≡ false
digits-plain p [] h ds = refl
digits-plain p (d ∷ ds) h (e, es) = rw (h d e) (digits-plain p ds h es)

-- No digit is among the characters of a test that fails on them.
pub number-plain :
    (p : ℕ → Bool) (n : ℕ)
    → ((d : ℕ) → is_digit d ≡ true → p d ≡ false)
    → some_of p (number_text n) ≡ false
unfolding number_text
number-plain p n h =
    let below : n < suc n = omega arith in digits-plain p _ h (emit-IsDigit (suc n) n [] below tt)

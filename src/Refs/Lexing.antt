-- ===== src/Refs/Lexing.antt =====
-- What the regular expressions of a segment find in texts of the form that is printed.
use ar_automation_agent.Prelude.{
  ℕ, ◌+◌, ◌-◌, ◌*◌, ◌≡◌, refl, ap, Bool, true, false, not, ◌&&◌, ◌||◌, Option, none, some, List, [],
  ◌∷◌, ◌++◌, map, length, drop, All, some_of, arith, ltb, ◌==◌, if◌then◌else◌, Bool-cases, inl, inr,
  none_of_or,
}
use ar_automation_agent.Prelude.Text.{Text, codes, is_space, lower, join, IsFree}
use ar_automation_agent.Refs.Document.{
  is_joined, joined, normalize_document_ref_token, number_text, nth_suffix,
}
use ar_automation_agent.Refs.Query.{
  number_so_far, nth_close, after, nth_here, nth_match, is_in_id, prefix, find_id, without_id,
}
use ar_automation_agent.Refs.Decimal.{close-number}

abbrev has_colon : Text → Bool
has_colon = some_of (λ c. c == 58)

close-colon : (o : Option ℕ) (s : Text) → has_colon s ≡ true → nth_close o s ≡ none
unfolding nth_close
close-colon o [] h = cc
close-colon o (c ∷ []) h = ground arith
close-colon o (c ∷ d ∷ s) h =
    ground (arith, close-colon (some (number_so_far o * 10 + (c - 48))) (d ∷ s))

after-colon :
    (p s r : Text)
    → has_colon p ≡ false
    → has_colon s ≡ true
    → after p s ≡ some r
    → has_colon r ≡ true
unfolding after
after-colon [] s r absent h e = let same : s ≡ r = cc in rw same at h
after-colon (q ∷ qs) [] r absent h e = cc
after-colon (q ∷ qs) (c ∷ cs) r absent h e = ground (arith, after-colon qs cs r)

here-colon : (c : ℕ) (cs : Text) → has_colon cs ≡ true → nth_here c cs ≡ none
unfolding nth_here
here-colon c cs h = elim (Bool-cases (c == 58)) [
  | inl e ↦ rw e (behind (after (codes "nth-of-type(") cs) refl)
  | inr e ↦ rw e refl
]
  where
    behind :
        (o : Option Text)
        → after (codes "nth-of-type(") cs ≡ o
        → (elim o [ none ↦ none | some s ↦ nth_close none s ]) ≡ none
    behind none e = refl
    behind (some s) e = close-colon none s (after-colon (codes "nth-of-type(") cs s refl h e)

has_colon-nth_suffix : (cs : Text) (n : ℕ) → has_colon (cs ++ nth_suffix n) ≡ true
has_colon-nth_suffix [] n = refl
has_colon-nth_suffix (c ∷ cs) n = rw (has_colon-nth_suffix cs n) (ground arith)

here-number : (n : ℕ) → nth_here 58 (codes "nth-of-type(" ++ (number_text n ++ 41 ∷ [])) ≡ some n
unfolding nth_here after
here-number n = close-number n

-- The number at the end of a segment is found, whatever stands before it.
pub match-suffix : (u : Text) (n : ℕ) → nth_match (u ++ nth_suffix n) ≡ some (u, n)
unfolding nth_match
match-suffix [] n = rw (here-number n, nth_match) refl
match-suffix (c ∷ cs) n =
    rw (here-colon c (cs ++ nth_suffix n) (has_colon-nth_suffix cs n), match-suffix cs n, nth_match)
      refl

pub prefix-All :
    (p : ℕ → Bool) (t rest : Text)
    → All (λ c. p c ≡ true) t
    → prefix p rest ≡ []
    → prefix p (t ++ rest) ≡ t
unfolding prefix
prefix-All p [] rest h stop = stop
prefix-All p (c ∷ cs) rest (h, hs) stop = rw (h, prefix-All p cs rest hs stop) refl

pub drop-append : (t rest : Text) → drop (length t) (t ++ rest) ≡ rest
drop-append [] rest = refl
drop-append (c ∷ cs) rest = drop-append cs rest

pub lower-lower : (t : Text) → lower (lower t) ≡ lower t
unfolding lower
lower-lower [] = refl
lower-lower (c ∷ cs) =
    let once : (if ltb 64 (if ltb 64 c && ltb c 91 then c + 32 else c)
            && ltb (if ltb 64 c && ltb c 91 then c + 32 else c) 91
          then (if ltb 64 c && ltb c 91 then c + 32 else c) + 32
          else (if ltb 64 c && ltb c 91 then c + 32 else c))
        ≡ (if ltb 64 c && ltb c 91 then c + 32 else c) =
      ground arith in
    rw (once, lower-lower cs) refl

pub find_id-skip : (t rest : Text) → IsFree 35 t → find_id (t ++ rest) ≡ find_id rest
unfolding find_id
find_id-skip [] rest h = refl
find_id-skip (c ∷ cs) rest h =
    let (one, all) = none_of_or (c == 35) _ h in rw one (find_id-skip cs rest all)

pub find_id-free : (t : Text) → IsFree 35 t → find_id t ≡ none
unfolding find_id
find_id-free [] h = refl
find_id-free (c ∷ cs) h = let (one, all) = none_of_or (c == 35) _ h in rw one (find_id-free cs all)

pub without_id-free : (t : Text) → IsFree 35 t → without_id t ≡ t
unfolding without_id
without_id-free [] h = refl
without_id-free (c ∷ cs) h =
    let (one, all) = none_of_or (c == 35) _ h in rw one (ap (λ z. c ∷ z) (without_id-free cs all))

pub IsFree-append : (c : ℕ) (s t : Text) → IsFree c s → IsFree c t → IsFree c (s ++ t)
IsFree-append c [] t h k = k
IsFree-append c (d ∷ ds) t h k =
    let (one, all) = none_of_or (d == c) _ h in rw one (IsFree-append c ds t all k)

-- A text that is joined from words has no code unit but theirs and the separator.
pub IsFree-join :
    (c sep : ℕ) (ws : List Text) → (sep == c) ≡ false → All (IsFree c) ws → IsFree c (join sep ws)
unfolding join
IsFree-join c sep [] other h = refl
IsFree-join c sep (w ∷ []) other (h, hs) = h
IsFree-join c sep (w ∷ v ∷ ws) other (h, hs) =
    IsFree-append c w (sep ∷ join sep (v ∷ ws)) h (rw other (IsFree-join c sep (v ∷ ws) other hs))

-- A character that a class, or an id, may have in a reference.
abbrev pub is_token : ℕ → Bool
is_token c = not (c == 35 || c == 46 || c == 62 || is_space c)

abbrev pub IsToken : Text → Type 0
IsToken t = All (λ c. is_token c ≡ true) t

pub token-IsFree : (sep : ℕ) (t : Text) → is_token sep ≡ false → IsToken t → IsFree sep t
token-IsFree sep [] absent h = refl
token-IsFree sep (c ∷ cs) absent (h, hs) =
    rw (token-IsFree sep cs absent hs) (ground (arith, h, absent))

pub token-id : (t : Text) → IsToken t → All (λ c. is_in_id c ≡ true) t
token-id [] h = tt
token-id (c ∷ cs) (h, hs) = (ground (arith, h), token-id cs hs)

pub normalize-token : (t : Text) → IsToken t → normalize_document_ref_token t ≡ t
unfolding normalize_document_ref_token joined
normalize-token [] h = refl
normalize-token (c ∷ cs) (h, hs) =
    let keeps : is_joined c ≡ false = ground (arith, h) in
    let rest : joined false cs ≡ cs = normalize-token cs hs in rw (keeps, rest) refl

pub normalize-tokens : (ws : List Text) → All IsToken ws → map normalize_document_ref_token ws ≡ ws
normalize-tokens [] h = refl
normalize-tokens (w ∷ ws) (h, hs) = rw (normalize-token w h, normalize-tokens ws hs) refl

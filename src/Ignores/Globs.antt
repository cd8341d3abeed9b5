-- ===== src/Ignores/Globs.antt =====
-- Which texts a glob matches, without its regular expression.
use native.Mathlib.Nat.{le_refl}
use ar_automation_agent.Prelude.{
  ℕ, zero, suc, ◌≤◌, ◌≡◌, ◌↔◌, refl, sym, ap, ◌∙◌, subst, Bool, true, false, ◌&&◌, Option, none,
  some, List, [], ◌∷◌, ◌++◌, map, length, arith, All, ◌==◌, inl, inr, both_of_and, and_both,
  or_left, or_right, or_cases, ==_iff,
}
use ar_automation_agent.Prelude.Text.{Text}
use ar_automation_agent.Ignores.Glob.{
  Piece, literal, any_run, name_run, next_piece, add_piece, pieces, glob_to_regex, in_line, in_name,
  run_then, matches, glob_matches,
}

-- No `*`, `?` or `{`.
abbrev pub IsPlain : ℕ → Type 0
IsPlain c = ((c == 42) ≡ false) × ((c == 63) ≡ false) × ((c == 123) ≡ false)

abbrev add_literals : Text → Option (List Piece) → Option (List Piece)
add_literals [] ps = ps
add_literals (c ∷ cs) ps = add_piece (some (literal c)) (add_literals cs ps)

next_piece-plain : (c : ℕ) (cs : Text) → IsPlain c → next_piece c cs ≡ (some (literal c), cs)
unfolding next_piece
next_piece-plain c cs (s, q, b) = simp (s, q, b)

pieces-plain :
    (p t : Text)
    → All IsPlain p
    → pieces (length (p ++ t)) (p ++ t) ≡ add_literals p (pieces (length t) t)
unfolding pieces
pieces-plain [] t h = refl
pieces-plain (c ∷ cs) t (h, hs) =
    let step = next_piece-plain c (cs ++ t) h in rw (step, pieces-plain cs t hs)

add_literals-some :
    (p : Text) (ps : List Piece) → add_literals p (some ps) ≡ some (map literal p ++ ps)
add_literals-some [] ps = refl
add_literals-some (c ∷ cs) ps = rw (add_literals-some cs ps)

-- A text is matched by literals and pieces if it starts with the one and the others match the rest.
matches-literals :
    (p : Text) (ps : List Piece) (s : Text)
    → (matches (map literal p ++ ps) s ≡ true) ↔ ((t : Text) × (s ≡ p ++ t) × (matches ps t ≡ true))
unfolding matches
matches-literals [] ps s =
    (λ h. (s, refl, h), λ (t, e, h). subst (λ z. matches ps z ≡ true) (sym e) h)
matches-literals (c ∷ cs) ps [] = (λ h. cc, λ (t, e, h). cc)
matches-literals (c ∷ cs) ps (d ∷ ds) = (
  λ h.
      let (same, rest) = both_of_and (d == c) (matches (map literal cs ++ ps) ds) h in
      let (t, e, k) = (matches-literals cs ps ds).0 rest in
      let head : d ≡ c = (==_iff d c).0 same in (t, cc, k),
  λ (t, e, h).
      let head : d ≡ c = cc in
      let tail : ds ≡ cs ++ t = cc in
      and_both (d == c) _ ((==_iff d c).1 head) ((matches-literals cs ps ds).1 (t, tail, h)),
)

-- A run takes some characters that pass, and the pieces behind it match the rest.
run_then-split :
    (p : ℕ → Bool) (k : Text → Bool) (s : Text)
    → run_then p k s ≡ true
    → (m t : Text) × All (λ c. p c ≡ true) m × (s ≡ m ++ t) × (k t ≡ true)
unfolding run_then
run_then-split p k [] h = ([], [], tt, refl, h)
run_then-split p k (d ∷ ds) h = elim (or_cases (k (d ∷ ds)) (p d && run_then p k ds) h) [
  | inl now ↦ ([], d ∷ ds, tt, refl, now)
  | inr on ↦
      let (pass, rest) = both_of_and (p d) (run_then p k ds) on in
      let (m, t, all, e, last) = run_then-split p k ds rest in
      (d ∷ m, t, (pass, all), ap (λ z. d ∷ z) e, last)
]

run_then-now : (p : ℕ → Bool) (k : Text → Bool) (t : Text) → k t ≡ true → run_then p k t ≡ true
unfolding run_then
run_then-now p k [] h = h
run_then-now p k (d ∷ ds) h = or_left _ _ h

run_then-append :
    (p : ℕ → Bool) (k : Text → Bool) (m t : Text)
    → All (λ c. p c ≡ true) m
    → k t ≡ true
    → run_then p k (m ++ t) ≡ true
unfolding run_then
run_then-append p k [] t all h = run_then-now p k t h
run_then-append p k (c ∷ cs) t (pass, all) h =
    or_right _ _ (and_both (p c) _ pass (run_then-append p k cs t all h))

-- Any number of turns that reaches the length does.
pieces-plain_fuel :
    (n : ℕ) (q : Text) → length q ≤ n → All IsPlain q → pieces n q ≡ some (map literal q)
unfolding pieces
pieces-plain_fuel zero [] le h = refl
pieces-plain_fuel (suc n) [] le h = refl
pieces-plain_fuel zero (c ∷ cs) le h = ground arith
pieces-plain_fuel (suc n) (c ∷ cs) le (h, hs) =
    let step = next_piece-plain c cs h in
    let shorter : length cs ≤ n = omega arith in rw (step, pieces-plain_fuel n cs shorter hs)

-- A star before plain text is a star, and takes no slash with it.
next_piece-star : (q : Text) → All IsPlain q → next_piece 42 q ≡ (some name_run, q)
unfolding next_piece
next_piece-star [] h = refl
next_piece-star (c ∷ []) ((s, _, _), _) = simp (s)
next_piece-star (c ∷ d ∷ cs) ((s, _, _), _) = simp (s)

glob_to_regex-star :
    (p q : Text)
    → All IsPlain p
    → All IsPlain q
    → glob_to_regex (p ++ 42 ∷ q) ≡ some (map literal p ++ name_run ∷ map literal q)
unfolding glob_to_regex pieces
glob_to_regex-star p q h k =
    let step = next_piece-star q k in
    let rest : pieces (length (42 ∷ q)) (42 ∷ q) ≡ some (name_run ∷ map literal q) =
      rw (step, pieces-plain_fuel (length q) q (le_refl (length q)) k) in
    pieces-plain p (42 ∷ q) h
    ∙ ap (add_literals p) rest
    ∙ add_literals-some p (name_run ∷ map literal q)

matches-plain_iff : (q s : Text) → (matches (map literal q) s ≡ true) ↔ (s ≡ q)
unfolding matches
matches-plain_iff [] [] = (λ h. refl, λ e. refl)
matches-plain_iff [] (d ∷ ds) = (λ h. cc, λ e. cc)
matches-plain_iff (c ∷ cs) [] = (λ h. cc, λ e. cc)
matches-plain_iff (c ∷ cs) (d ∷ ds) = (
  λ h.
      let (same, rest) = both_of_and (d == c) (matches (map literal cs) ds) h in
      let head : d ≡ c = (==_iff d c).0 same in
      let tail : ds ≡ cs = (matches-plain_iff cs ds).0 rest in cc,
  λ e.
      let head : d ≡ c = cc in
      let tail : ds ≡ cs = cc in
      and_both (d == c) _ ((==_iff d c).1 head) ((matches-plain_iff cs ds).1 tail),
)

-- A glob without `*`, `?` or `{` matches itself and nothing else, whatever characters of it mean
-- something in a regular expression.
pub glob_matches-plain_iff : (g s : Text) → All IsPlain g → (glob_matches g s ≡ true) ↔ (s ≡ g)
unfolding glob_matches glob_to_regex
glob_matches-plain_iff g s h =
    subst (λ o. (elim o [ none ↦ false | some ps ↦ matches ps s ] ≡ true) ↔ (s ≡ g))
      (sym (pieces-plain_fuel (length g) g (le_refl (length g)) h)) (matches-plain_iff g s)

matches-star_iff :
    (p q s : Text)
    → (matches (map literal p ++ name_run ∷ map literal q) s ≡ true)
      ↔ ((m : Text) × All (λ c. in_name c ≡ true) m × (s ≡ p ++ (m ++ q)))
unfolding matches
matches-star_iff p q s = (
  λ h.
      let (t, e, k) = (matches-literals p (name_run ∷ map literal q) s).0 h in
      let (m, u, all, f, last) = run_then-split in_name (matches (map literal q)) t k in
      let g : u ≡ q = (matches-plain_iff q u).0 last in
      (m, all, e ∙ ap (λ z. p ++ z) (f ∙ ap (λ z. m ++ z) g)),
  λ (m, all, e). (matches-literals p (name_run ∷ map literal q) s).1 (
    m ++ q,
    e,
    run_then-append in_name (matches (map literal q)) m q all ((matches-plain_iff q q).1 refl),
  ),
)

-- One star between two plain texts stands for any run of characters without a slash, and for
-- nothing else: it does not reach across folders.
pub glob_matches-star_iff :
    (p q s : Text)
    → All IsPlain p
    → All IsPlain q
    → (glob_matches (p ++ 42 ∷ q) s ≡ true)
      ↔ ((m : Text) × All (λ c. in_name c ≡ true) m × (s ≡ p ++ (m ++ q)))
unfolding glob_matches
glob_matches-star_iff p q s h k =
    subst
      (λ o.
        (elim o [ none ↦ false | some ps ↦ matches ps s ] ≡ true)
        ↔ ((m : Text) × All (λ c. in_name c ≡ true) m × (s ≡ p ++ (m ++ q))))
      (sym (glob_to_regex-star p q h k)) (matches-star_iff p q s)

glob_to_regex-globstar :
    (q : Text) → All IsPlain q → glob_to_regex (42 ∷ 42 ∷ 47 ∷ q) ≡ some (any_run ∷ map literal q)
unfolding glob_to_regex pieces next_piece
glob_to_regex-globstar q h = rw (pieces-plain_fuel (suc (suc (length q))) q (omega arith) h)

-- Two stars and a slash before a plain text match every text of one line that ends in it, also in
-- the middle of a name: the slash goes with the stars.
pub glob_matches-globstar_iff :
    (q s : Text)
    → All IsPlain q
    → (glob_matches (42 ∷ 42 ∷ 47 ∷ q) s ≡ true)
      ↔ ((m : Text) × All (λ c. in_line c ≡ true) m × (s ≡ m ++ q))
unfolding glob_matches matches
glob_matches-globstar_iff q s h =
    subst
      (λ o.
        (elim o [ none ↦ false | some ps ↦ matches ps s ] ≡ true)
        ↔ ((m : Text) × All (λ c. in_line c ≡ true) m × (s ≡ m ++ q)))
      (sym (glob_to_regex-globstar q h))
      (
        λ k.
            let (m, u, all, f, last) = run_then-split in_line (matches (map literal q)) s k in
            (m, all, f ∙ ap (λ z. m ++ z) ((matches-plain_iff q u).0 last)),
        λ (m, all, e).
            subst (λ z. run_then in_line (matches (map literal q)) z ≡ true) (sym e)
              (run_then-append in_line (matches (map literal q)) m q all
                ((matches-plain_iff q q).1 refl)),
      )

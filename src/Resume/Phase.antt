-- ===== src/Resume/Phase.antt =====
-- `PHASE_RANK` and `shouldAdvancePhase`: the phase that the progress bar shows.
use ar_automation_agent.Prelude.{
  ℕ, ◌≤◌, ◌≡◌, Bool, true, false, ◌||◌, Option, none, some, List, [], ◌∷◌, All, leb, leb→le,
  if◌then◌else◌, if_cases,
}
use native.Mathlib.Nat.{le_trans}
use ar_automation_agent.Prelude.Text.{Text, codes, text_eq}

abbrev pub ranks : List (Text × ℕ)
ranks =
    (codes "queued", 0)
    ∷ (codes "picked_up", 1)
    ∷ (codes "scaffolding", 2)
    ∷ (codes "scaffold_fallback", 3)
    ∷ (codes "source_ready", 4)
    ∷ (codes "generation_ready", 5)
    ∷ (codes "generating", 5)
    ∷ (codes "variants_progress", 5)
    ∷ (codes "first_reviewable", 8)
    ∷ (codes "second_reviewable", 11)
    ∷ (codes "all_variants_ready", 12)
    ∷ (codes "variants_ready", 12)
    ∷ []

abbrev pub rank_in : List (Text × ℕ) → Text → Option ℕ
rank_in [] p = none
rank_in ((q, r) ∷ rs) p = if text_eq q p then some r else rank_in rs p

unfoldable pub phase_rank : Text → Option ℕ
phase_rank p = rank_in ranks p

-- A phase that has no rank always passes, over one that has none too.
abbrev pub ranked_advance : Option ℕ → Option ℕ → Bool
ranked_advance (some c) (some n) = leb c n
ranked_advance _ none = true
ranked_advance none _ = true

-- The empty text stands for no phase.
unfoldable pub should_advance_phase : Text → Text → Bool
should_advance_phase current next =
    if text_eq next [] || text_eq next current
    then false
    else ranked_advance (phase_rank current) (phase_rank next)

-- The case `agent_phase` of the messages, while the session generates or is compared.
unfoldable pub advance_phase : Text → Text → Text
advance_phase current next = if should_advance_phase current next then next else current

unfoldable pub advance_phases : Text → List Text → Text
advance_phases current [] = current
advance_phases current (p ∷ ps) = advance_phases (advance_phase current p) ps

abbrev pub IsRanked : Text → Type 0
IsRanked p = (r : ℕ) × (phase_rank p ≡ some r)

-- The bar stands at the rank or above it.
abbrev pub IsAtLeast : ℕ → Text → Type 0
IsAtLeast r p = (s : ℕ) × (phase_rank p ≡ some s) × (r ≤ s)

advance_phase-IsAtLeast :
    (r : ℕ) (current next : Text)
    → IsAtLeast r current
    → IsRanked next
    → IsAtLeast r (advance_phase current next)
unfolding advance_phase should_advance_phase
advance_phase-IsAtLeast r current next (s, e, le) (n, f) =
    if_cases (IsAtLeast r) (should_advance_phase current next) next current
      (if_cases (λ b. b ≡ true → IsAtLeast r next) (text_eq next [] || text_eq next current) false
        (ranked_advance (phase_rank current) (phase_rank next)) (λ _ h. cc)
        (λ _ h. (n, f, le_trans le (leb→le s n (rw (e, f) at h)))))
      (λ _. (s, e, le))

-- The bar never moves back: from a phase that has a rank, by whatever phases that have one, in
-- whatever order they come, it ends at a phase of that rank or a higher one.
pub advance_phases-IsAtLeast :
    (r : ℕ) (current : Text) (nexts : List Text)
    → IsAtLeast r current
    → All IsRanked nexts
    → IsAtLeast r (advance_phases current nexts)
unfolding advance_phases
advance_phases-IsAtLeast r current [] h k = h
advance_phases-IsAtLeast r current (p ∷ ps) h (k, ks) =
    advance_phases-IsAtLeast r (advance_phase current p) ps
      (advance_phase-IsAtLeast r current p h k) ks

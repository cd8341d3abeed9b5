-- ===== src/Dom/Picking.antt =====
-- What can be picked.
use ar_automation_agent.Prelude.{
  ◌*◌, ◌≤◌, ◌≡◌, ◌≢◌, refl, sym, subst, ◌↔◌, Bool, true, false, not, ◌||◌, some, List, [], ◌∷◌,
  ◌++◌, some_of, ◌==◌, ==_iff, if◌then◌else◌, All, Bool-cases, inl, inr, none_of_or, both_of_and,
  arith,
}
use ar_automation_agent.Prelude.Text.{
  Text, lower, text_eq, text_eq_refl, eq_of_text_eq, starts_with,
}
use ar_automation_agent.Dom.Elements.{Node, Element, has_prefix, own, pickable, is_large}

-- The text begins with the prefix.
abbrev pub Begins : Text → Text → Type 0
Begins prefix s = (rest : Text) × (s ≡ prefix ++ rest)

starts_with-Begins : (p s : Text) → starts_with p s ≡ true → Begins p s
unfolding starts_with
starts_with-Begins [] s h = (s, refl)
starts_with-Begins (a ∷ p) [] h = cc
starts_with-Begins (a ∷ p) (c ∷ s) h =
    let (same, later) = both_of_and (a == c) _ h in
    let (rest, e) = starts_with-Begins p s later in let equal = (==_iff a c).0 same in (rest, cc)

starts_with-append : (p s : Text) → starts_with p (p ++ s) ≡ true
unfolding starts_with
starts_with-append [] s = refl
starts_with-append (a ∷ p) s = rw ((==_iff a a).1 refl) (starts_with-append p s)

not_starts-Begins : (p s : Text) → (starts_with p s ≡ false) ↔ (¬ Begins p s)
not_starts-Begins p s = (
  λ h (rest, e).
      let starts : starts_with p s ≡ true =
        subst (λ z. starts_with p z ≡ true) (sym e) (starts_with-append p rest) in
      cc,
  λ h. elim (Bool-cases (starts_with p s)) [
    | inl e ↦ absurd (h (starts_with-Begins p s e))
    | inr e ↦ e
  ],
)

not_equal-text_eq : (t u : Text) → (text_eq t u ≡ false) ↔ (t ≢ u)
not_equal-text_eq t u = (
  λ h e. let same = text_eq_refl t in cc,
  λ h. elim (Bool-cases (text_eq t u)) [ inl e ↦ absurd (h (eq_of_text_eq t u e)) | inr e ↦ e ],
)

-- A test fails on every item: what it is to fail stands in `P`.
none_of-All {ℓ κ} :
    {A : Type ℓ} {P : A → Type κ} (f : A → Bool)
    → ((x : A) → (f x ≡ false) ↔ P x)
    → (xs : List A) → (some_of f xs ≡ false) ↔ All P xs
none_of-All f h [] = (λ e. tt, λ e. refl)
none_of-All f h (x ∷ xs) = (
  λ e. let (one, rest) = none_of_or (f x) _ e in ((h x).0 one, (none_of-All f h xs).0 rest),
  λ (one, rest). rw ((h x).1 one) ((none_of-All f h xs).1 rest),
)

-- An element that may be picked: what begins with the prefix is an id of the tool.
abbrev pub IsPickable : Text → List Text → Element → Type 0
IsPickable prefix skip e =
    (e.node.is_element ≡ true)
    × All (λ t. t ≢ lower e.node.tag_name) skip
    × All (λ (n : Node). ¬ Begins prefix n.id) (e.node ∷ e.ancestors)
    × (20 * 64 ≤ e.node.width)
    × (20 * 64 ≤ e.node.height)

-- The tests of `pickable` in their order, where the own node is asked twice.
refusals :
    (a b c d large : Bool)
    → ((if not a then false else if b then false else if c || (c || d) then false else large)
        ≡ true)
      ↔ ((a ≡ true) × (b ≡ false) × ((c || d) ≡ false) × (large ≡ true))
refusals false b c d large = (λ h. cc, λ h. cc)
refusals true true c d large = (λ h. cc, λ h. cc)
refusals true false true d large = (λ h. cc, λ h. cc)
refusals true false false true large = (λ h. cc, λ h. cc)
refusals true false false false large = (λ h. (refl, refl, refl, h), λ h. h.3)

is_large-le : (n : Node) → (is_large n ≡ true) ↔ ((20 * 64 ≤ n.width) × (20 * 64 ≤ n.height))
is_large-le n = (λ h. (ground arith, ground arith), λ (w, h). ground arith)

-- An element can be picked exactly if it is an element, its tag in lower case is none of those that
-- are skipped, neither its id nor that of an ancestor begins with the prefix of the tool, and it
-- measures 20 pixels at least in both directions.
pub pickable-IsPickable_iff :
    (prefix : Text) (skip : List Text) (e : Element)
    → (pickable prefix skip (some e) ≡ true) ↔ IsPickable prefix skip e
unfolding pickable own
pickable-IsPickable_iff prefix skip e =
    let all =
      refusals e.node.is_element (some_of (λ t. text_eq t (lower e.node.tag_name)) skip)
        (has_prefix prefix e.node) (some_of (has_prefix prefix) e.ancestors) (is_large e.node) in
    let tags =
      none_of-All (λ t. text_eq t (lower e.node.tag_name))
        (λ t. not_equal-text_eq t (lower e.node.tag_name)) skip in
    let ids =
      none_of-All (has_prefix prefix) (λ (n : Node). not_starts-Begins prefix n.id)
        (e.node ∷ e.ancestors) in
    let size = is_large-le e.node in
    (
      λ h.
          let (element, tag, foreign, large) = all.0 h in
          let (wide, tall) = size.0 large in (element, tags.0 tag, ids.0 foreign, wide, tall),
      λ (element, tag, foreign, wide, tall).
          all.1 (element, tags.1 tag, ids.1 foreign, size.1 (wide, tall)),
    )

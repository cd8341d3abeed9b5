-- ===== src/Insert/Rows.antt =====
-- How `groupSiblingRows` of live-browser.js divides the siblings.
use mathlib.Core.List.{Perm, perm_middle, append_assoc, append-nil}
use mathlib.Core.List.Perm
use ar_automation_agent.Prelude.{
  ◌≡◌, Bool, true, false, Bool-cases, inl, inr, List, [], ◌∷◌, ◌++◌, All, All-snoc, arith,
}
use ar_automation_agent.Prelude.Int.{ℤ, pos, ◌-ℤ◌, ◌+ℤ◌, ◌≤ℤ◌, abs, not-le_of_leb_ℤ, int_laws}
use ar_automation_agent.Insert.Geometry.{
  Sibling, Row, entries, is_near, in_order, insert_sorted, sort, place, place_all,
  group_sibling_rows,
}

-- All entries, row after row.
abbrev pub members : List Row → List Sibling
members [] = []
members (r ∷ rs) = entries r ++ members rs

module _ (le : Sibling → Sibling → Bool) where
  insert_sorted-perm : (x : Sibling) (xs : List Sibling) → Perm (insert_sorted le x xs) (x ∷ xs)
  unfolding insert_sorted
  insert_sorted-perm x [] = Perm.refl (x ∷ [])
  insert_sorted-perm x (y ∷ ys) = elim (Bool-cases (le x y)) [
    | inl e ↦ rw e (Perm.refl (x ∷ y ∷ ys))
    | inr e ↦ rw e (Perm.trans (Perm.cons y (insert_sorted-perm x ys)) (Perm.swap x y ys))
  ]

  pub sort-perm : (xs : List Sibling) → Perm (sort le xs) xs
  unfolding sort
  sort-perm [] = Perm.refl []
  sort-perm (x ∷ xs) = Perm.trans (insert_sorted-perm x (sort le xs)) (Perm.cons x (sort-perm xs))

-- An entry is within the threshold of the first of its row.
abbrev pub IsClose : ℤ → Row → Sibling → Type 0
IsClose threshold r e =
    (e.rect.top ≤ℤ r.first.rect.top +ℤ threshold) × (r.first.rect.top ≤ℤ e.rect.top +ℤ threshold)

is_near-IsClose :
    (threshold : ℤ) (e : Sibling) (r : Row) → is_near threshold e r ≡ true → IsClose threshold r e
unfolding abs ◌-ℤ◌ ◌+ℤ◌
is_near-IsClose threshold e r h = ground arith

abs_le : (a t : ℤ) → a ≤ℤ t → pos 0 -ℤ a ≤ℤ t → abs a ≤ℤ t
unfolding abs ◌-ℤ◌
abs_le a t h k = ground arith

abs_sub_le : (a b t : ℤ) → a ≤ℤ b +ℤ t → b ≤ℤ a +ℤ t → abs (a -ℤ b) ≤ℤ t
abs_sub_le a b t h k = abs_le (a -ℤ b) t (omega int_laws) (omega int_laws)

not_near-IsClose :
    (threshold : ℤ) (e : Sibling) (r : Row)
    → is_near threshold e r ≡ false
    → ¬ IsClose threshold r e
not_near-IsClose threshold e r h (low, high) =
    not-le_of_leb_ℤ (abs (e.rect.top -ℤ r.first.rect.top)) threshold h
      (abs_sub_le e.rect.top r.first.rect.top threshold low high)

-- No row opens within the threshold of the first entry of an earlier one.
abbrev pub AreApart : ℤ → List Row → Type 0
AreApart threshold [] = Unit
AreApart threshold (r ∷ rs) = All (λ s. ¬ IsClose threshold r s.first) rs × AreApart threshold rs

abbrev pub AreClose : ℤ → List Row → Type 0
AreClose threshold = All λ r. All (IsClose threshold r) r.others

module _ (threshold : ℤ) where
  place-perm :
      (e : Sibling) (rs : List Row) → Perm (members (place threshold e rs)) (e ∷ members rs)
  unfolding place
  place-perm e [] = Perm.refl (e ∷ [])
  place-perm e (r ∷ rs) = elim (Bool-cases (is_near threshold e r)) [
    | inl h ↦ rw (h, append_assoc) (perm_middle (entries r) (members rs))
    | inr h ↦ rw h (
        Perm.trans (Perm.append_left (entries r) (place-perm e rs))
          (perm_middle (entries r) (members rs)))
  ]

  place_all-perm :
      (es : List Sibling) (rs : List Row)
      → Perm (members (place_all threshold es rs)) (members rs ++ es)
  unfolding place_all
  place_all-perm [] rs = rw append-nil (Perm.refl (members rs))
  place_all-perm (e ∷ es) rs = Perm.trans (place_all-perm es (place threshold e rs)) (
      Perm.trans (Perm.append_right es (place-perm e rs)) (Perm.symm (perm_middle (members rs) es)))

  place-AreClose :
      (e : Sibling) (rs : List Row)
      → AreClose threshold rs
      → AreClose threshold (place threshold e rs)
  unfolding place
  place-AreClose e [] h = (tt, tt)
  place-AreClose e (r ∷ rs) h = elim (Bool-cases (is_near threshold e r)) [
    | inl n ↦ rw n (All-snoc _ r.others e h.0 (is_near-IsClose threshold e r n), h.1)
    | inr n ↦ rw n (h.0, place-AreClose e rs h.1)
  ]

  -- A property of the first entries holds of the new rows too.
  place-firsts {κ} :
      (P : Sibling → Type κ) (e : Sibling) (rs : List Row)
      → P e
      → All (λ s. P s.first) rs
      → All (λ s. P s.first) (place threshold e rs)
  unfolding place
  place-firsts P e [] p h = (p, tt)
  place-firsts P e (r ∷ rs) p h = elim (Bool-cases (is_near threshold e r)) [
    | inl n ↦ rw n h
    | inr n ↦ rw n (h.0, place-firsts P e rs p h.1)
  ]

  place-AreApart :
      (e : Sibling) (rs : List Row)
      → AreApart threshold rs
      → AreApart threshold (place threshold e rs)
  unfolding place
  place-AreApart e [] h = (tt, tt)
  place-AreApart e (r ∷ rs) h = elim (Bool-cases (is_near threshold e r)) [
    | inl n ↦ rw n h
    | inr n ↦ rw n (
      place-firsts (λ s. ¬ IsClose threshold r s) e rs (not_near-IsClose threshold e r n) h.0,
      place-AreApart e rs h.1,
    )
  ]

  place_all-invariant :
      (es : List Sibling) (rs : List Row)
      → AreClose threshold rs × AreApart threshold rs
      → AreClose threshold (place_all threshold es rs)
        × AreApart threshold (place_all threshold es rs)
  unfolding place_all
  place_all-invariant [] rs h = h
  place_all-invariant (e ∷ es) rs h =
      place_all-invariant es (place threshold e rs)
        (place-AreClose e rs h.0, place-AreApart e rs h.1)

  -- The rows are a rearrangement of the siblings: each sibling stands in exactly one row, as often
  -- as it is given.
  pub group_sibling_rows-perm :
      (siblings : List Sibling) → Perm (members (group_sibling_rows threshold siblings)) siblings
  unfolding group_sibling_rows
  group_sibling_rows-perm siblings =
      Perm.trans (place_all-perm (sort in_order siblings) []) (sort-perm in_order siblings)

  -- The top of every entry is at most the threshold above or below the top of its row's first entry,
  -- and no row's first entry is at most the threshold above or below the first entry of an earlier
  -- row.
  pub group_sibling_rows-close-apart :
      (siblings : List Sibling)
      → AreClose threshold (group_sibling_rows threshold siblings)
        × AreApart threshold (group_sibling_rows threshold siblings)
  unfolding group_sibling_rows
  group_sibling_rows-close-apart siblings = place_all-invariant (sort in_order siblings) [] (tt, tt)

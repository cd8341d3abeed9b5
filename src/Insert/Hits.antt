-- ===== src/Insert/Hits.antt =====
-- What `hitSiblingInsertGap` of live-browser.js returns.
use mathlib.Core.List.{Mem, mem-cons_self, mem-cons_of_mem, mem-append_left, mem-append_right}
use mathlib.Core.List.Perm
use ar_automation_agent.Prelude.{
  ◌≡◌, inl, inr, List, [], ◌∷◌, ladder-eq-some, both_of_not_or, both_of_and, Option, some,
  Option-cases, ◌⊎◌, sym, ap, ◌∙◌, true, false, not, ◌||◌,
}
use ar_automation_agent.Prelude.Int.{
  ℤ, leb_ℤ, ◌-ℤ◌, ◌+ℤ◌, ◌≤ℤ◌, max_ℤ, min_ℤ, le_of_leb_ℤ, not-le_of_leb_ℤ, le_of_ltb_ℤ,
}
use ar_automation_agent.Insert.Axis.{row, column}
use ar_automation_agent.Insert.Geometry.{
  Sibling, Row, before, entries, twice, horizontal_overlap, px, group_sibling_rows, in_order,
  in_order_left, sort,
}
use ar_automation_agent.Insert.Gap.{
  Hit, slop, in_band, under_quarter, row_gap, column_gap, first_gap, row_gaps,
  hit_sibling_insert_gap, row_hit, column_hit,
}
use ar_automation_agent.Insert.Rows.{members, sort-perm, group_sibling_rows-perm}

-- `v` is between `lo` and `hi`, or at most the slop outside.
abbrev pub Between : ℤ → ℤ → ℤ → Type 0
Between v lo hi = (lo -ℤ slop ≤ℤ v) × (v ≤ℤ hi +ℤ slop)

in_band-Between : (v lo hi : ℤ) → in_band v lo hi ≡ true → Between v lo hi
in_band-Between v lo hi h =
    let (p, q) = both_of_and (leb_ℤ (lo -ℤ slop) v) (leb_ℤ v (hi +ℤ slop)) h in
    (le_of_leb_ℤ (lo -ℤ slop) v p, le_of_leb_ℤ v (hi +ℤ slop) q)

in_bands :
    (v lo hi w lo' hi' : ℤ)
    → (not (in_band v lo hi) || not (in_band w lo' hi')) ≡ false
    → Between v lo hi × Between w lo' hi'
in_bands v lo hi w lo' hi' h =
    let (p, q) = both_of_not_or (in_band v lo hi) (in_band w lo' hi') h in
    (in_band-Between v lo hi p, in_band-Between w lo' hi' q)

-- The hit marks the gap from `a` to `b` on their row, before `b`.
pub record IsRowGap (x y : ℤ) (a b : Sibling) (h : Hit) : Type 0 where
  pub anchors : h.anchor ≡ b.el
  pub stands : h.position ≡ before
  pub along : h.axis ≡ row
  pub is_gap : ¬ (b.rect.left ≤ℤ a.rect.right)
  pub beside :
      min_ℤ a.rect.height b.rect.height
      ≤ℤ twice (twice (min_ℤ a.rect.bottom b.rect.bottom -ℤ max_ℤ a.rect.top b.rect.top))
  pub across : Between x a.rect.right b.rect.left
  pub within : Between y (max_ℤ a.rect.top b.rect.top) (min_ℤ a.rect.bottom b.rect.bottom)
  pub halfway : h.line.left2 ≡ a.rect.right +ℤ b.rect.left

row_gap-IsRowGap :
    (x y : ℤ) (a b : Sibling) (h : Hit) → row_gap x y a b ≡ some h → IsRowGap x y a b h
unfolding row_gap row_hit
row_gap-IsRowGap x y a b h e =
    let top = max_ℤ a.rect.top b.rect.top in
    let bottom = min_ℤ a.rect.bottom b.rect.bottom in
    let size = min_ℤ a.rect.height b.rect.height in
    let span = bottom -ℤ top in
    let (p, q, r, v) =
      ladder-eq-some (leb_ℤ b.rect.left a.rect.right) (under_quarter span size) _ (row_hit a b) h
        e in
    let (inx, iny) = in_bands x a.rect.right b.rect.left y top bottom r in
    record {
      anchors = ap (λ (k : Hit). k.anchor) (sym v);
      stands = ap (λ (k : Hit). k.position) (sym v);
      along = ap (λ (k : Hit). k.axis) (sym v);
      is_gap = not-le_of_leb_ℤ b.rect.left a.rect.right p;
      beside = le_of_ltb_ℤ (twice (twice span)) size q;
      across = inx;
      within = iny;
      halfway = ap (λ (k : Hit). k.line.left2) (sym v);
    }

-- The hit marks the gap from `a` down to `b`, before `b`.
pub record IsColumnGap (x y : ℤ) (a b : Sibling) (h : Hit) : Type 0 where
  pub anchors : h.anchor ≡ b.el
  pub stands : h.position ≡ before
  pub along : h.axis ≡ column
  pub is_gap : ¬ (b.rect.top ≤ℤ a.rect.bottom)
  pub beside : min_ℤ a.rect.width b.rect.width ≤ℤ twice (twice (horizontal_overlap a.rect b.rect))
  pub across : Between y a.rect.bottom b.rect.top
  pub within : Between x (max_ℤ a.rect.left b.rect.left) (min_ℤ a.rect.right b.rect.right)
  pub halfway : h.line.top2 ≡ a.rect.bottom +ℤ b.rect.top

column_gap-IsColumnGap :
    (x y : ℤ) (a b : Sibling) (h : Hit) → column_gap x y a b ≡ some h → IsColumnGap x y a b h
unfolding column_gap column_hit
column_gap-IsColumnGap x y a b h e =
    let left = max_ℤ a.rect.left b.rect.left in
    let right = min_ℤ a.rect.right b.rect.right in
    let size = min_ℤ a.rect.width b.rect.width in
    let span = horizontal_overlap a.rect b.rect in
    let (q, p, r, v) =
      ladder-eq-some (under_quarter span size) (leb_ℤ b.rect.top a.rect.bottom) _ (column_hit a b) h
        e in
    let (iny, inx) = in_bands y a.rect.bottom b.rect.top x left right r in
    record {
      anchors = ap (λ (k : Hit). k.anchor) (sym v);
      stands = ap (λ (k : Hit). k.position) (sym v);
      along = ap (λ (k : Hit). k.axis) (sym v);
      is_gap = not-le_of_leb_ℤ b.rect.top a.rect.bottom p;
      beside = le_of_ltb_ℤ (twice (twice span)) size q;
      across = iny;
      within = inx;
      halfway = ap (λ (k : Hit). k.line.top2) (sym v);
    }

-- Two members of a list for which the body returned the hit.
abbrev Neighbours : (Sibling → Sibling → Option Hit) → List Sibling → Hit → Type 0
Neighbours body xs h = (a : Sibling) × (b : Sibling) × Mem a xs × Mem b xs × (body a b ≡ some h)

module _ (body : Sibling → Sibling → Option Hit) (h : Hit) where
  later_Neighbours :
      (a : Sibling) (xs : List Sibling) → Neighbours body xs h → Neighbours body (a ∷ xs) h
  later_Neighbours a xs (c, d, m, n, e) = (c, d, mem-cons_of_mem a m, mem-cons_of_mem a n, e)

  first_gap-Neighbours : (xs : List Sibling) → first_gap body xs ≡ some h → Neighbours body xs h
  unfolding first_gap
  first_gap-Neighbours [] e = cc
  first_gap-Neighbours (a ∷ []) e = cc
  first_gap-Neighbours (a ∷ b ∷ rest) e = elim (Option-cases (body a b)) [
    | inl miss ↦
        later_Neighbours a (b ∷ rest) (first_gap-Neighbours (b ∷ rest) (rw (miss, first_gap) at e))
    | inr (k, hit) ↦
        (a, b, mem-cons_self, mem-cons_of_mem a mem-cons_self, hit ∙ (rw (hit, first_gap) at e))
  ]

row_gaps-Neighbours :
    (x y : ℤ) (h : Hit) (rs : List Row)
    → row_gaps x y rs ≡ some h
    → Neighbours (row_gap x y) (members rs) h
unfolding row_gaps
row_gaps-Neighbours x y h [] e = cc
row_gaps-Neighbours x y h (r ∷ rs) e =
    elim (Option-cases (first_gap (row_gap x y) (sort in_order_left (entries r)))) [
      | inl miss ↦
          let (c, d, m, n, f) = row_gaps-Neighbours x y h rs (rw (miss, row_gaps) at e) in
          (c, d, mem-append_right (entries r) m, mem-append_right (entries r) n, f)
      | inr (k, hit) ↦
          let (c, d, m, n, f) =
            first_gap-Neighbours (row_gap x y) h (sort in_order_left (entries r))
              (hit ∙ (rw (hit, row_gaps) at e)) in
          let p = sort-perm in_order_left (entries r) in
          (
            c,
            d,
            mem-append_left (members rs) ((Perm.mem_iff p).0 m),
            mem-append_left (members rs) ((Perm.mem_iff p).0 n),
            f,
          )
    ]

-- A hit names two of the given siblings, on a row or in a column, and the pointer is at the gap
-- between them: the anchor is the second of the two and the new element goes before it, the two
-- are apart along the axis and side by side for at least a quarter of the smaller, the pointer is
-- within twelve pixels of the gap in both directions, and the line stands halfway in it.
pub hit_sibling_insert_gap-IsGap :
    (x y : ℤ) (siblings : List Sibling) (h : Hit)
    → hit_sibling_insert_gap x y siblings ≡ some h
    → (a : Sibling) × (b : Sibling) × Mem a siblings
      × Mem b siblings
      × (IsRowGap x y a b h ⊎ IsColumnGap x y a b h)
unfolding hit_sibling_insert_gap
hit_sibling_insert_gap-IsGap x y [] h e = cc
hit_sibling_insert_gap-IsGap x y (s ∷ []) h e = cc
hit_sibling_insert_gap-IsGap x y (s ∷ t ∷ rest) h e =
    let all = s ∷ t ∷ rest in
    elim (Option-cases (row_gaps x y (group_sibling_rows (px 8) all))) [
      | inl miss ↦
          let (c, d, m, n, f) =
            first_gap-Neighbours (column_gap x y) h (sort in_order all)
              (rw (miss, hit_sibling_insert_gap) at e) in
          let p = sort-perm in_order all in
          (
            c,
            d,
            (Perm.mem_iff p).0 m,
            (Perm.mem_iff p).0 n,
            inr (column_gap-IsColumnGap x y c d h f),
          )
      | inr (k, hit) ↦
          let (c, d, m, n, f) =
            row_gaps-Neighbours x y h (group_sibling_rows (px 8) all)
              (hit ∙ (rw (hit, hit_sibling_insert_gap) at e)) in
          let p = group_sibling_rows-perm (px 8) all in
          (c, d, (Perm.mem_iff p).0 m, (Perm.mem_iff p).0 n, inl (row_gap-IsRowGap x y c d h f))
    ]

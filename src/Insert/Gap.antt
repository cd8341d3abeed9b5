-- ===== src/Insert/Gap.antt =====
-- `hitSiblingInsertGap` and `resolveInsertHover` of live-browser.js: the pointer between two siblings.
use ar_automation_agent.Prelude.{
  ℕ, Bool, ◌&&◌, ◌||◌, not, Option, none, some, List, [], ◌∷◌, if◌then◌else◌,
}
use ar_automation_agent.Prelude.Int.{ℤ, pos, ◌+ℤ◌, ◌-ℤ◌, ltb_ℤ, leb_ℤ, max_ℤ, min_ℤ}
use ar_automation_agent.Insert.Axis.{Axis, row, column}
use ar_automation_agent.Insert.Geometry.{
  Rect, Sibling, Position, before, Line, Row, px, twice, entries, in_order, in_order_left, sort,
  group_sibling_rows, horizontal_overlap, compute_insert_position, insert_line_coords,
}

-- The place found: the element, on which side of it, the axis and the line.
pub record Hit : Type 0 where
  pub anchor : ℕ
  pub position : Position
  pub axis : Axis
  pub line : Line

-- `slop` and `minOverlap`: the default of 12 pixels, and the default of a quarter.
abbrev pub slop : ℤ
slop = px 12

-- `span < minH * 0.25`, without the fraction.
abbrev pub under_quarter : ℤ → ℤ → Bool
under_quarter span size = ltb_ℤ (twice (twice span)) size

-- `lo - slop <= v && v <= hi + slop`
abbrev pub in_band : ℤ → ℤ → ℤ → Bool
in_band v lo hi = leb_ℤ (lo -ℤ slop) v && leb_ℤ v (hi +ℤ slop)

-- What is returned for two neighbours on a row, and for two in a column.
unfoldable pub row_hit : Sibling → Sibling → Hit
unfolding ◌+ℤ◌ ◌-ℤ◌ twice
row_hit a b =
    let top = max_ℤ a.rect.top b.rect.top in
    record {
      anchor = b.el;
      position = before;
      axis = row;
      line = record {
        axis = row;
        left2 = a.rect.right +ℤ b.rect.left;
        top2 = twice top;
        width2 = pos 0;
        height2 = twice (min_ℤ a.rect.bottom b.rect.bottom -ℤ top);
      };
    }

unfoldable pub column_hit : Sibling → Sibling → Hit
unfolding ◌+ℤ◌ ◌-ℤ◌ twice
column_hit a b = record {
  anchor = b.el;
  position = before;
  axis = column;
  line = record {
    axis = column;
    left2 = twice (max_ℤ a.rect.left b.rect.left);
    top2 = a.rect.bottom +ℤ b.rect.top;
    width2 = twice (horizontal_overlap a.rect b.rect);
    height2 = pos 0;
  };
}

-- The body of the loop over one row, for neighbours `a` and `b`: `none` is `continue`.
unfoldable pub row_gap : ℤ → ℤ → Sibling → Sibling → Option Hit
unfolding ◌-ℤ◌ twice row_hit
row_gap x y a b =
    let top = max_ℤ a.rect.top b.rect.top in
    let bottom = min_ℤ a.rect.bottom b.rect.bottom in
    let span = bottom -ℤ top in
    if leb_ℤ b.rect.left a.rect.right
    then none
    else if under_quarter span (min_ℤ a.rect.height b.rect.height)
    then none
    else if not (in_band x a.rect.right b.rect.left) || not (in_band y top bottom)
    then none
    else some (row_hit a b)

-- The body of the loop over all siblings from top to bottom.
unfoldable pub column_gap : ℤ → ℤ → Sibling → Sibling → Option Hit
unfolding ◌+ℤ◌ ◌-ℤ◌ twice column_hit
column_gap x y a b =
    let overlap = horizontal_overlap a.rect b.rect in
    let left = max_ℤ a.rect.left b.rect.left in
    let right = min_ℤ a.rect.right b.rect.right in
    if under_quarter overlap (min_ℤ a.rect.width b.rect.width)
    then none
    else if leb_ℤ b.rect.top a.rect.bottom
    then none
    else if not (in_band y a.rect.bottom b.rect.top) || not (in_band x left right)
    then none
    else some (column_hit a b)

-- The first neighbours for which the body returns.
unfoldable pub first_gap : (Sibling → Sibling → Option Hit) → List Sibling → Option Hit
first_gap body [] = none
first_gap body (a ∷ []) = none
first_gap body (a ∷ b ∷ rest) =
    let later = first_gap body (b ∷ rest) in elim (body a b) [ none ↦ later | some h ↦ some h ]

unfoldable pub row_gaps : ℤ → ℤ → List Row → Option Hit
unfolding first_gap row_gap
row_gaps x y [] = none
row_gaps x y (r ∷ rs) =
    let later = row_gaps x y rs in
    elim (first_gap (row_gap x y) (sort in_order_left (entries r))) [
      | none ↦ later
      | some h ↦ some h
    ]

-- Fewer than two siblings, or two, make no loop run: the test before the loops is `first_gap`'s.
unfoldable pub hit_sibling_insert_gap : ℤ → ℤ → List Sibling → Option Hit
unfolding row_gaps first_gap column_gap
hit_sibling_insert_gap x y [] = none
hit_sibling_insert_gap x y (a ∷ []) = none
hit_sibling_insert_gap x y (a ∷ b ∷ rest) =
    elim (row_gaps x y (group_sibling_rows (px 8) (a ∷ b ∷ rest))) [
      | none ↦ first_gap (column_gap x y) (sort in_order (a ∷ b ∷ rest))
      | some h ↦ some h
    ]

-- The rectangle is the target's.
unfoldable pub resolve_insert_hover : ℤ → ℤ → ℕ → Rect → Axis → List Sibling → Hit
unfolding hit_sibling_insert_gap
resolve_insert_hover x y target rect axis siblings = elim (hit_sibling_insert_gap x y siblings) [
  | some h ↦ h
  | none ↦
      let position = compute_insert_position x y (some rect) axis in
      record {
        anchor = target;
        position = position;
        axis = axis;
        line = insert_line_coords rect position axis;
      }
]

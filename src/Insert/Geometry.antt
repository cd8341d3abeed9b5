-- ===== src/Insert/Geometry.antt =====
-- Rectangles, the insertion position, the insertion line and the rows of siblings of live-browser.js.
use ar_automation_agent.Prelude.{
  ℕ, ◌*◌, Bool, true, ◌&&◌, Option, none, some, List, [], ◌∷◌, ◌++◌, if◌then◌else◌,
}
use ar_automation_agent.Prelude.Int.{ℤ, pos, ◌+ℤ◌, ◌-ℤ◌, ltb_ℤ, leb_ℤ, max_ℤ, min_ℤ, abs}
use ar_automation_agent.Insert.Axis.{Axis, row, column}

-- A bounding rectangle.
pub record Rect : Type 0 where
  pub left : ℤ
  pub top : ℤ
  pub right : ℤ
  pub bottom : ℤ
  pub width : ℤ
  pub height : ℤ

pub record Sibling : Type 0 where
  pub el : ℕ
  pub rect : Rect

pub data Position : Type 0 where
  before after : Position

-- A whole number of CSS pixels.
abbrev pub px : ℕ → ℤ
px n = pos (n * 64)

unfoldable pub twice : ℤ → ℤ
unfolding ◌+ℤ◌
twice z = z +ℤ z

-- The line that marks the place. Its numbers count half units, since it may stand at a midpoint.
pub record Line : Type 0 where
  pub axis : Axis
  pub left2 : ℤ
  pub top2 : ℤ
  pub width2 : ℤ
  pub height2 : ℤ

-- The midpoint is compared in half units.
unfoldable pub compute_insert_position : ℤ → ℤ → Option Rect → Axis → Position
unfolding ◌+ℤ◌ twice
compute_insert_position x y none axis = after
compute_insert_position x y (some r) row =
    if leb_ℤ r.width (pos 0)
    then after
    else if ltb_ℤ (twice x) (twice r.left +ℤ r.width)
    then before
    else after
compute_insert_position x y (some r) column =
    if leb_ℤ r.height (pos 0)
    then after
    else if ltb_ℤ (twice y) (twice r.top +ℤ r.height)
    then before
    else after

unfoldable pub insert_line_coords : Rect → Position → Axis → Line
unfolding ◌+ℤ◌ ◌-ℤ◌ twice
insert_line_coords r p row = record {
  axis = row;
  left2 = twice (elim p [ before ↦ r.left -ℤ px 2 | after ↦ r.right +ℤ px 2 ]);
  top2 = twice r.top;
  width2 = pos 0;
  height2 = twice r.height;
}
insert_line_coords r p column = record {
  axis = column;
  left2 = twice r.left;
  top2 = twice (elim p [ before ↦ r.top -ℤ px 2 | after ↦ r.bottom +ℤ px 2 ]);
  width2 = twice r.width;
  height2 = pos 0;
}

-- `a.top - b.top || a.left - b.left` is at most 0.
abbrev pub in_order : Sibling → Sibling → Bool
in_order a b =
    if leb_ℤ b.rect.top a.rect.top
    then leb_ℤ a.rect.top b.rect.top && leb_ℤ a.rect.left b.rect.left
    else true

abbrev pub in_order_left : Sibling → Sibling → Bool
in_order_left a b = leb_ℤ a.rect.left b.rect.left

-- `sort` of the standard library: stable.
unfoldable pub insert_sorted : (Sibling → Sibling → Bool) → Sibling → List Sibling → List Sibling
insert_sorted le x [] = x ∷ []
insert_sorted le x (y ∷ ys) = if le x y then x ∷ y ∷ ys else y ∷ insert_sorted le x ys

unfoldable pub sort : (Sibling → Sibling → Bool) → List Sibling → List Sibling
unfolding insert_sorted
sort le [] = []
sort le (x ∷ xs) = insert_sorted le x (sort le xs)

-- A row of siblings: its first entry, and the entries behind it.
pub record Row : Type 0 where
  pub first : Sibling
  pub others : List Sibling

abbrev pub entries : Row → List Sibling
entries r = r.first ∷ r.others

abbrev pub is_near : ℤ → Sibling → Row → Bool
is_near threshold e r = leb_ℤ (abs (e.rect.top -ℤ r.first.rect.top)) threshold

-- The inner loop: the entry joins the first row that is near, or opens one at the end.
unfoldable pub place : ℤ → Sibling → List Row → List Row
place threshold e [] = record { first = e; others = [] } ∷ []
place threshold e (r ∷ rs) =
    if is_near threshold e r
    then record r { others = r.others ++ e ∷ [] } ∷ rs
    else r ∷ place threshold e rs

unfoldable pub place_all : ℤ → List Sibling → List Row → List Row
unfolding place
place_all threshold [] rows = rows
place_all threshold (e ∷ es) rows = place_all threshold es (place threshold e rows)

unfoldable pub group_sibling_rows : ℤ → List Sibling → List Row
unfolding sort place_all
group_sibling_rows threshold siblings = place_all threshold (sort in_order siblings) []

unfoldable pub horizontal_overlap : Rect → Rect → ℤ
unfolding ◌-ℤ◌
horizontal_overlap a b = max_ℤ (pos 0) (min_ℤ a.right b.right -ℤ max_ℤ a.left b.left)

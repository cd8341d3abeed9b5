-- ===== src/Insert/Resize.antt =====
-- What clamping and resizing of the placeholder in live-browser.js keep.
use ar_automation_agent.Prelude.{Option, arith}
use ar_automation_agent.Prelude.Int.{
  ℤ, pos, negsuc, ◌≤ℤ◌, ◌+ℤ◌, ◌-ℤ◌, ◌*ℤ◌, max_ℤ, floor_div, +ℤ_parts, -ℤ_parts,
}
use ar_automation_agent.Insert.Placeholder.{
  Box, Edge, north, east, south, west, round, clamp_placeholder_size, resize_placeholder_from_edge,
  placeholder_min_width, placeholder_min_height, or_number,
}

-- Half a pixel, in 64ths.
abbrev pub IsWithinHalf : ℤ → ℤ → Type 0
IsWithinHalf a b = (a ≤ℤ b +ℤ pos 32) × (b ≤ℤ a +ℤ pos 32)

round-IsWithinHalf : (z : ℤ) → IsWithinHalf (round z) z
unfolding round ◌+ℤ◌ ◌*ℤ◌ floor_div
round-IsWithinHalf (pos n) = ground arith
round-IsWithinHalf (negsuc n) = ground arith

-- `hi` bounds a sum with a difference in it, which the rounding of the difference moves by half.
anchored_far :
    (margin size new : ℤ) → IsWithinHalf (round (margin +ℤ size -ℤ new) +ℤ new) (margin +ℤ size)
anchored_far margin size new =
    let r = round-IsWithinHalf (margin +ℤ size -ℤ new) in
    (omega (arith, +ℤ_parts, -ℤ_parts, r.0, r.1), omega (arith, +ℤ_parts, -ℤ_parts, r.0, r.1))

-- Whatever is asked for, the clamped width is at least 120 pixels and at most the larger of that
-- and the parent's width, and the clamped height is at least 48 pixels.
pub clamp_placeholder_size_bounds :
    (width height : ℤ) (parent_width : Option ℤ)
    → (placeholder_min_width ≤ℤ (clamp_placeholder_size width height parent_width).width)
      × ((clamp_placeholder_size width height parent_width).width
          ≤ℤ max_ℤ placeholder_min_width (or_number parent_width placeholder_min_width))
      × (placeholder_min_height ≤ℤ (clamp_placeholder_size width height parent_width).height)
unfolding clamp_placeholder_size
clamp_placeholder_size_bounds width height parent_width = (ground arith, ground arith, ground arith)

-- The edge opposite to the one that is dragged moves by half a pixel at most: its rounding.
pub StaysAt : Edge → Box → Box → Type 0
StaysAt east start box =
    IsWithinHalf box.margin_left start.margin_left × IsWithinHalf box.margin_top start.margin_top
StaysAt south start box =
    IsWithinHalf box.margin_left start.margin_left × IsWithinHalf box.margin_top start.margin_top
StaysAt west start box =
    IsWithinHalf (box.margin_left +ℤ box.width) (start.margin_left +ℤ start.width)
    × IsWithinHalf box.margin_top start.margin_top
StaysAt north start box =
    IsWithinHalf (box.margin_top +ℤ box.height) (start.margin_top +ℤ start.height)
    × IsWithinHalf box.margin_left start.margin_left

-- Whichever edge is dragged, by however much and into whatever clamp, the opposite edge stays where
-- it was, up to the half pixel of its rounding, and so does the near edge of the other direction.
pub resize_placeholder_from_edge-StaysAt :
    (start : Box) (edge : Edge) (dx dy : ℤ) (parent_width : Option ℤ)
    → StaysAt edge start (resize_placeholder_from_edge start edge dx dy parent_width)
unfolding StaysAt resize_placeholder_from_edge
resize_placeholder_from_edge-StaysAt start east dx dy parent_width =
    (round-IsWithinHalf start.margin_left, round-IsWithinHalf start.margin_top)
resize_placeholder_from_edge-StaysAt start south dx dy parent_width =
    (round-IsWithinHalf start.margin_left, round-IsWithinHalf start.margin_top)
resize_placeholder_from_edge-StaysAt start west dx dy parent_width = (
  anchored_far start.margin_left start.width
      (resize_placeholder_from_edge start west dx dy parent_width).width,
  round-IsWithinHalf start.margin_top,
)
resize_placeholder_from_edge-StaysAt start north dx dy parent_width = (
  anchored_far start.margin_top start.height
      (resize_placeholder_from_edge start north dx dy parent_width).height,
  round-IsWithinHalf start.margin_left,
)

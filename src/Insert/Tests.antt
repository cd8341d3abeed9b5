-- ===== src/Insert/Tests.antt =====
-- Runs of insert mode, and its theorems at concrete inputs.
use mathlib.Core.List.{Mem, Perm}
use ar_automation_agent.Prelude.{ℕ, false, ◌≡◌, refl, List, [], ◌∷◌, some, none, ◌⊎◌, ◌+◌}
use ar_automation_agent.Prelude.Int.{◌≤ℤ◌, max_ℤ, abs}
use ar_automation_agent.Prelude.Text.{codes, starts_with, includes}
use ar_automation_agent.Insert.Axis.{row, detect_insert_axis_from_style}
use ar_automation_agent.Insert.Geometry.{
  Sibling, px, group_sibling_rows, before, after, compute_insert_position, horizontal_overlap,
}
use ar_automation_agent.Insert.Gap.{row_hit, hit_sibling_insert_gap}
use ar_automation_agent.Insert.Hits.{IsRowGap, IsColumnGap, hit_sibling_insert_gap-IsGap}
use ar_automation_agent.Insert.Rows.{
  members, AreClose, AreApart, group_sibling_rows-perm, group_sibling_rows-close-apart,
}
use ar_automation_agent.Insert.Placeholder.{
  Box, west, resize_placeholder_from_edge, clamp_placeholder_size, placeholder_min_width,
  placeholder_min_height, or_number, can_create_insert,
}
use ar_automation_agent.Insert.Resize.{
  StaysAt, clamp_placeholder_size_bounds, resize_placeholder_from_edge-StaysAt,
}

-- A box of the given size in pixels.
abbrev box_at : ℕ → ℕ → ℕ → ℕ → ℕ → Sibling
box_at el left top width height = record {
  el = el;
  rect = record {
    left = px left;
    top = px top;
    right = px (left + width);
    bottom = px (top + height);
    width = px width;
    height = px height;
  };
}

abbrev card_a : Sibling
card_a = box_at 1 0 0 100 50

abbrev card_b : Sibling
card_b = box_at 2 120 4 100 50

abbrev card_c : Sibling
card_c = box_at 3 0 90 220 50

abbrev cards : List Sibling
cards = card_c ∷ card_b ∷ card_a ∷ []

between_cards : hit_sibling_insert_gap (px 110) (px 25) cards ≡ some (row_hit card_a card_b)
unfolding hit_sibling_insert_gap group_sibling_rows abs
between_cards = refl

away_from_cards : hit_sibling_insert_gap (px 50) (px 25) cards ≡ none
unfolding hit_sibling_insert_gap group_sibling_rows abs horizontal_overlap
away_from_cards = refl

flex_axis :
    detect_insert_axis_from_style (record {
      display = some (codes "inline-flex");
      flex_direction = none;
      grid_auto_flow = none;
      grid_template_columns = none;
    })
    ≡ row
unfolding detect_insert_axis_from_style includes starts_with
flex_axis = refl

left_half : compute_insert_position (px 49) (px 0) (some card_a.rect) row ≡ before
unfolding compute_insert_position
left_half = refl

right_half : compute_insert_position (px 50) (px 0) (some card_a.rect) row ≡ after
unfolding compute_insert_position
right_half = refl

blank_prompt : can_create_insert (some (codes "  ")) 0 (1 ∷ []) ≡ false
unfolding can_create_insert
blank_prompt = refl

abbrev start : Box
start = record { width = px 200; height = px 60; margin_left = px 10; margin_top = px 0 }

-- Dragged far to the right, the west edge stops at the least width.
narrowest :
    resize_placeholder_from_edge start west (px 150) (px 0) (some (px 400))
    ≡ record { width = px 120; height = px 60; margin_left = px 90; margin_top = px 0 }
unfolding resize_placeholder_from_edge
narrowest = refl

group_sibling_rows-perm_example : Perm (members (group_sibling_rows (px 8) cards)) cards
group_sibling_rows-perm_example = group_sibling_rows-perm (px 8) cards

group_sibling_rows-close-apart_example :
    AreClose (px 8) (group_sibling_rows (px 8) cards)
    × AreApart (px 8) (group_sibling_rows (px 8) cards)
group_sibling_rows-close-apart_example = group_sibling_rows-close-apart (px 8) cards

hit_sibling_insert_gap-IsGap_example :
    (a : Sibling) × (b : Sibling) × Mem a cards
    × Mem b cards
    × (IsRowGap (px 110) (px 25) a b (row_hit card_a card_b)
        ⊎ IsColumnGap (px 110) (px 25) a b (row_hit card_a card_b))
hit_sibling_insert_gap-IsGap_example =
    hit_sibling_insert_gap-IsGap (px 110) (px 25) cards (row_hit card_a card_b) between_cards

clamp_placeholder_size_bounds_example :
    (placeholder_min_width ≤ℤ (clamp_placeholder_size (px 30) (px 30) (some (px 90))).width)
    × ((clamp_placeholder_size (px 30) (px 30) (some (px 90))).width
        ≤ℤ max_ℤ placeholder_min_width (or_number (some (px 90)) placeholder_min_width))
    × (placeholder_min_height ≤ℤ (clamp_placeholder_size (px 30) (px 30) (some (px 90))).height)
clamp_placeholder_size_bounds_example = clamp_placeholder_size_bounds (px 30) (px 30) (some (px 90))

resize_placeholder_from_edge-StaysAt_example :
    StaysAt west start (resize_placeholder_from_edge start west (px 150) (px 0) (some (px 400)))
resize_placeholder_from_edge-StaysAt_example =
    resize_placeholder_from_edge-StaysAt start west (px 150) (px 0) (some (px 400))

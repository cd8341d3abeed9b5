-- ===== src/Insert/Placeholder.antt =====
-- The placeholder of an insertion in live-browser.js: its sizing, and its resizing from an edge.
use ar_automation_agent.Prelude.{
  ℕ, Bool, true, false, ◌&&◌, ◌||◌, not, Option, none, some, List, [], leb, ltb, some_of,
  if◌then◌else◌,
}
use ar_automation_agent.Prelude.Int.{ℤ, pos, ◌+ℤ◌, ◌-ℤ◌, ◌*ℤ◌, leb_ℤ, max_ℤ, min_ℤ, floor_div}
use ar_automation_agent.Prelude.Text.{Text, codes, text_eq, includes, trim, is_set, or_text}
use ar_automation_agent.Insert.Axis.{Axis, row, column, is_grid}
use ar_automation_agent.Insert.Geometry.{px}

abbrev pub placeholder_min_width : ℤ
placeholder_min_width = px 120

abbrev pub placeholder_min_height : ℤ
placeholder_min_height = px 48

-- `Math.round`: to the nearest pixel, a half upwards.
unfoldable pub round : ℤ → ℤ
unfolding ◌+ℤ◌ ◌*ℤ◌ floor_div
round z = floor_div (z +ℤ pos 32) 64 *ℤ pos 64

-- `n || d` of a number that may be missing.
abbrev pub or_number : Option ℤ → ℤ → ℤ
or_number none d = d
or_number (some n) d = if leb_ℤ n (pos 0) && leb_ℤ (pos 0) n then d else n

pub data Sizing : Type 0 where
  flex : Text → Sizing
  auto percent : Sizing
  explicit : ℤ → Sizing

unfoldable pub block_sizing : Option ℤ → Sizing
block_sizing parent_width =
    let w = or_number parent_width (pos 0) in
    if leb_ℤ placeholder_min_width w
    then percent
    else explicit (max_ℤ placeholder_min_width (or_number (some w) placeholder_min_width))

unfoldable pub placeholder_sizing : Axis → Option Text → Option ℤ → Option Text → Sizing
unfolding block_sizing
placeholder_sizing column display parent_width anchor_flex = block_sizing parent_width
placeholder_sizing row display parent_width anchor_flex =
    let d = or_text display (codes "block") in
    let f = or_text anchor_flex (codes "") in
    if includes (codes "flex") d
    then flex (
        if is_set f && not (text_eq f (codes "none")) && not (text_eq f (codes "0 1 auto"))
        then f
        else codes "1 1 0")
    else if is_grid d
    then auto
    else block_sizing parent_width

unfoldable pub placeholder_width_is_implicit : Sizing → Bool
placeholder_width_is_implicit (explicit w) = false
placeholder_width_is_implicit _ = true

-- The placeholder as the styles leave it: the mark of its kind and the styles set, `none` for ''.
pub record Placeholder : Type 0 where
  pub kind : Sizing
  pub style_flex : Option Text
  pub style_min_width : Option ℤ
  pub full_max_width : Bool
  pub style_width : Option ℤ
  pub full_width : Bool

unfoldable pub apply_placeholder_sizing_styles : Sizing → Placeholder
apply_placeholder_sizing_styles s = elim s [
  | flex f ↦ record {
    kind = flex f;
    style_flex = some f;
    style_min_width = some (pos 0);
    full_max_width = false;
    style_width = none;
    full_width = false;
  }
  | percent ↦ record {
    kind = percent;
    style_flex = none;
    style_min_width = none;
    full_max_width = true;
    style_width = none;
    full_width = true;
  }
  | explicit w ↦ record {
    kind = explicit w;
    style_flex = none;
    style_min_width = none;
    full_max_width = false;
    style_width = some w;
    full_width = false;
  }
  | auto ↦ record {
    kind = auto;
    style_flex = none;
    style_min_width = none;
    full_max_width = false;
    style_width = none;
    full_width = false;
  }
]

-- `offset_width` is the width that the browser has given to it.
unfoldable pub materialize_placeholder_width : ℤ → Placeholder → Placeholder
unfolding placeholder_width_is_implicit round
materialize_placeholder_width offset_width p =
    if placeholder_width_is_implicit p.kind
    then (let w = max_ℤ placeholder_min_width (round offset_width) in
        record {
          kind = explicit w;
          style_flex = none;
          style_min_width = none;
          full_max_width = false;
          style_width = some w;
          full_width = false;
        })
    else p

-- A stroke is read for the number of its points.
unfoldable pub can_create_insert : Option Text → ℕ → List ℕ → Bool
unfolding trim
can_create_insert prompt comments strokes =
    is_set (trim (or_text prompt [])) || ltb 0 comments || some_of (λ points. leb 2 points) strokes

unfoldable pub insert_create_disabled_reason : Option Text → ℕ → List ℕ → Option Text
unfolding can_create_insert
insert_create_disabled_reason prompt comments strokes =
    if can_create_insert prompt comments strokes
    then none
    else some (codes "Add a prompt or annotate the placeholder to create")

pub record Size : Type 0 where
  pub width : ℤ
  pub height : ℤ

pub record Box : Type 0 where
  pub width : ℤ
  pub height : ℤ
  pub margin_left : ℤ
  pub margin_top : ℤ

pub data Edge : Type 0 where
  north east south west : Edge

unfoldable pub clamp_placeholder_size : ℤ → ℤ → Option ℤ → Size
unfolding round
clamp_placeholder_size width height parent_width =
    let max_w = max_ℤ placeholder_min_width (or_number parent_width placeholder_min_width) in
    record {
      width = min_ℤ max_w (max_ℤ placeholder_min_width (round width));
      height = max_ℤ placeholder_min_height (round height);
    }

-- The size before it is clamped.
unfoldable pub dragged : Box → Edge → ℤ → ℤ → Size
unfolding ◌+ℤ◌ ◌-ℤ◌
dragged start east dx dy = record { width = start.width +ℤ dx; height = start.height }
dragged start west dx dy = record { width = start.width -ℤ dx; height = start.height }
dragged start south dx dy = record { width = start.width; height = start.height +ℤ dy }
dragged start north dx dy = record { width = start.width; height = start.height -ℤ dy }

-- At the west and north edges the margin set before the clamp is set again behind it.
unfoldable pub resize_placeholder_from_edge : Box → Edge → ℤ → ℤ → Option ℤ → Box
unfolding dragged clamp_placeholder_size round ◌+ℤ◌ ◌-ℤ◌
resize_placeholder_from_edge start edge dx dy parent_width =
    let base = dragged start edge dx dy in
    let clamped = clamp_placeholder_size base.width base.height parent_width in
    record {
      width = clamped.width;
      height = clamped.height;
      margin_left = round (elim edge [
        | west ↦ start.margin_left +ℤ start.width -ℤ clamped.width
        | _ ↦ start.margin_left
      ]);
      margin_top = round (elim edge [
        | north ↦ start.margin_top +ℤ start.height -ℤ clamped.height
        | _ ↦ start.margin_top
      ]);
    }

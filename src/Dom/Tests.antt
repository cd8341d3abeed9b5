-- ===== src/Dom/Tests.antt =====
-- Elements at concrete inputs.
use ar_automation_agent.Prelude.{◌≡◌, ◌↔◌, refl, true, false, none, some, [], ◌∷◌}
use ar_automation_agent.Prelude.Text.{codes, text_eq, lower, starts_with, join}
use ar_automation_agent.Dom.Elements.{
  Node, Element, own, pickable, desc, has_framework_hmr_ownership,
}
use ar_automation_agent.Dom.Lookup.{css_id, backslashed, active_element_deep, active_in, nothing}
use ar_automation_agent.Dom.Picking.{IsPickable, pickable-IsPickable_iff}

abbrev card : Node
card = record {
  is_element = true;
  tag_name = codes "DIV";
  id = [];
  classes = codes "card" ∷ codes "wide" ∷ codes "p-2" ∷ [];
  width = 6400;
  height = 6400;
  keys = some (codes "__reactFiber$x1" ∷ []);
}

abbrev bar : Node
bar = record card { id = codes "impeccable-live-bar" }

abbrev in_page : Element
in_page = record { node = card; ancestors = card ∷ [] }

abbrev in_tool : Element
in_tool = record { node = card; ancestors = bar ∷ [] }

tool_not_picked : pickable (codes "impeccable-live") [] (some in_tool) ≡ false
unfolding pickable own starts_with text_eq lower
tool_not_picked = refl

described_card : desc (some in_page) ≡ codes "div.card.wide"
unfolding desc lower join
described_card = refl

owned_card : has_framework_hmr_ownership in_page ≡ true
unfolding has_framework_hmr_ownership starts_with text_eq
owned_card = refl

escaped : css_id none (codes "a.b") ≡ codes "a\\.b"
unfolding css_id backslashed
escaped = refl

deepest : active_element_deep (active_in 1 (active_in 2 nothing)) ≡ some 2
unfolding active_element_deep
deepest = refl

pickable-IsPickable_iff_example :
    (pickable (codes "impeccable-live") (codes "script" ∷ []) (some in_page) ≡ true)
    ↔ IsPickable (codes "impeccable-live") (codes "script" ∷ []) in_page
pickable-IsPickable_iff_example =
    pickable-IsPickable_iff (codes "impeccable-live") (codes "script" ∷ []) in_page

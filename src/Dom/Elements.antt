-- ===== src/Dom/Elements.antt =====
-- What live-browser-dom.js asks of elements.
use ar_automation_agent.Prelude.{
  ℕ, ◌*◌, Bool, false, not, ◌&&◌, ◌||◌, Option, none, some, List, [], ◌∷◌, ◌++◌, take, some_of, ltb,
  leb, if◌then◌else◌,
}
use ar_automation_agent.Prelude.Text.{Text, codes, text_eq, is_set, lower, starts_with, join}

-- Lengths are counted in 64ths of a pixel. `keys` are the names of the node's own properties, none
-- where reading them throws.
pub record Node : Type 0 where
  pub is_element : Bool
  pub tag_name : Text
  pub id : Text
  pub classes : List Text
  pub width : ℕ
  pub height : ℕ
  pub keys : Option (List Text)

-- An element is its node with those of its ancestors, the nearest first.
pub record Element : Type 0 where
  pub node : Node
  pub ancestors : List Node

abbrev pub has_prefix : Text → Node → Bool
has_prefix prefix n = starts_with prefix n.id

-- `closest` begins at the element itself.
unfoldable pub own : Text → Element → Bool
unfolding starts_with
own prefix e = has_prefix prefix e.node || some_of (has_prefix prefix) (e.node ∷ e.ancestors)

abbrev pub is_large : Node → Bool
is_large n = leb (20 * 64) n.width && leb (20 * 64) n.height

unfoldable pub pickable : Text → List Text → Option Element → Bool
unfolding own text_eq lower
pickable prefix skip none = false
pickable prefix skip (some e) =
    if not e.node.is_element
    then false
    else if some_of (λ t. text_eq t (lower e.node.tag_name)) skip
    then false
    else if own prefix e
    then false
    else is_large e.node

abbrev pub name_of : Text → List Text → Text
name_of id classes =
    if is_set id
    then 35 ∷ id
    else elim classes [ [] ↦ [] | c ∷ cs ↦ 46 ∷ join 46 (take 2 (c ∷ cs)) ]

-- Both an element and a frozen anchor are described by their tag, id and classes.
abbrev pub described : Text → Text → List Text → Text
described tag id classes = lower tag ++ name_of id classes

unfoldable pub desc : Option Element → Text
unfolding lower join
desc none = []
desc (some e) = described e.node.tag_name e.node.id e.node.classes

-- More than half a pixel.
unfoldable pub rect_is_usable_anchor : ℕ → ℕ → Bool
rect_is_usable_anchor width height = ltb 32 width && ltb 32 height

pub record Frozen : Type 0 where
  pub tag_name : Text
  pub id : Text
  pub classes : List Text
  pub width : ℕ
  pub height : ℕ

abbrev pub or_div : Text → Text
or_div t = if is_set t then t else codes "DIV"

unfoldable pub make_frozen_anchor : Option Element → Option Frozen
unfolding rect_is_usable_anchor
make_frozen_anchor none = none
make_frozen_anchor (some e) =
    if rect_is_usable_anchor e.node.width e.node.height
    then some (record {
      tag_name = or_div e.node.tag_name;
      id = e.node.id;
      classes = e.node.classes;
      width = e.node.width;
      height = e.node.height;
    })
    else none

abbrev pub hmr_prefixes : List Text
hmr_prefixes = codes "__reactFiber$" ∷ codes "__reactProps$" ∷ codes "__reactContainer$" ∷ []

abbrev pub hmr_names : List Text
hmr_names =
    codes "_reactRootContainer"
    ∷ codes "__vueParentComponent"
    ∷ codes "__vue_app__"
    ∷ codes "__vnode"
    ∷ codes "__svelte_meta"
    ∷ []

abbrev pub is_hmr_key : Text → Bool
is_hmr_key k = some_of (λ p. starts_with p k) hmr_prefixes || some_of (λ n. text_eq n k) hmr_names

abbrev pub keys_of : Option (List Text) → List Text
keys_of none = []
keys_of (some ks) = ks

abbrev pub is_hmr_node : Node → Bool
is_hmr_node n = some_of is_hmr_key (keys_of n.keys)

unfoldable pub has_framework_hmr_ownership : Element → Bool
unfolding starts_with text_eq
has_framework_hmr_ownership e = some_of is_hmr_node (e.node ∷ e.ancestors)

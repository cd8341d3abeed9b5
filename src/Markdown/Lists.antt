-- ===== src/Markdown/Lists.antt =====
-- `buildListHtml` of live-browser.js.
use ar_automation_agent.Prelude.{ℕ, zero, suc, ◌-◌, List, [], ◌∷◌, ◌++◌, ltb, if◌then◌else◌}
use ar_automation_agent.Prelude.Text.{Text, codes}

pub data ListType : Type 0 where
  ul ol : ListType

pub record Item : Type 0 where
  pub indent : ℕ
  pub html : Text

-- The pieces that are put together: the opening tag of a list, an item, and the closing tag.
pub data Part : Type 0 where
  opens closes : Part
  holds : Text → Part

abbrev pub type_text : ListType → Text
type_text ul = codes "ul"
type_text ol = codes "ol"

-- `x.repeat(n)`
unfoldable pub repeated : ℕ → List Part
repeated zero = []
repeated (suc n) = closes ∷ repeated n

abbrev pub steps_to : ℕ → ℕ → List Part
steps_to last indent =
    if ltb last indent then opens ∷ [] else if ltb indent last then repeated (last - indent) else []

unfoldable pub item_parts : ℕ → List Item → List Part
unfolding repeated
item_parts last [] = repeated (suc last)
item_parts last (i ∷ is) = steps_to last i.indent ++ holds i.html ∷ item_parts i.indent is

unfoldable pub list_parts : List Item → List Part
unfolding item_parts
list_parts items = opens ∷ item_parts 0 items

abbrev pub part_text : ListType → Part → Text
part_text t opens = codes "<" ++ (type_text t ++ codes ">")
part_text t closes = codes "</" ++ (type_text t ++ codes ">")
part_text t (holds html) = codes "<li>" ++ (html ++ codes "</li>")

abbrev pub parts_text : ListType → List Part → Text
parts_text t [] = []
parts_text t (p ∷ ps) = part_text t p ++ parts_text t ps

unfoldable pub build_list_html : List Item → ListType → Text
unfolding list_parts
build_list_html items t = parts_text t (list_parts items)

-- ===== src/Dom/Lookup.antt =====
-- `id8`, `cssId`, `uiGetById` and `activeElementDeep` of live-browser-dom.js.
use ar_automation_agent.Prelude.{
  ℕ, Bool, not, Option, none, some, [], ◌∷◌, ◌++◌, take, drop, keep, some_of, ◌==◌, if◌then◌else◌,
}
use ar_automation_agent.Prelude.Text.{Text, codes}

-- The UUID of the browser, where it makes one; else a random number and the time, in their text.
unfoldable pub id8 : Option Text → Text → Text → Text
id8 (some uuid) random now = take 8 (keep (λ c. not (c == 45)) uuid)
id8 none random now = take 8 (drop 2 random ++ now)

abbrev pub css_special : Text
css_special = codes " !\"#$%&'()*+,./:;<=>?@[\\]^`{|}~"

abbrev pub is_special : ℕ → Bool
is_special c = some_of (λ d. d == c) css_special

unfoldable pub backslashed : Text → Text
backslashed [] = []
backslashed (c ∷ cs) = let rest = backslashed cs in if is_special c then 92 ∷ c ∷ rest else c ∷ rest

-- `escape` is `CSS.escape`, where the browser has it.
unfoldable pub css_id : Option (Text → Text) → Text → Text
unfolding backslashed
css_id (some escape) id = escape id
css_id none id = backslashed id

abbrev pub Find : Type 0
Find = Option (Text → Option ℕ)

abbrev pub found_by : Find → Text → Option ℕ
found_by none t = none
found_by (some f) t = f t

abbrev pub or_found : Option ℕ → Option ℕ → Option ℕ
or_found none o = o
or_found (some e) o = some e

-- The root of the tool's elements, with what it can find, and the document.
pub record Roots : Type 0 where
  pub root_by_id : Find
  pub root_query : Find
  pub doc_by_id : Text → Option ℕ

unfoldable pub ui_get_by_id : Option (Text → Text) → Roots → Text → Option ℕ
unfolding css_id
ui_get_by_id escape r id =
    or_found (found_by r.root_by_id id)
      (or_found (found_by r.root_query (35 ∷ css_id escape id)) (r.doc_by_id id))

-- The active element of a document or shadow root, with what is active in its own shadow root.
pub data Active : Type 0 where
  nothing : Active
  active_in : ℕ → Active → Active

unfoldable pub active_element_deep : Active → Option ℕ
active_element_deep nothing = none
active_element_deep (active_in e nothing) = some e
active_element_deep (active_in e (active_in d a)) = active_element_deep (active_in d a)

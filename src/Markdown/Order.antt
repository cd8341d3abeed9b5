-- ===== src/Markdown/Order.antt =====
-- A line of text that follows a list without a blank line between them.
use ar_automation_agent.Prelude.{◌≡◌, refl, none, List, [], ◌∷◌, ◌++◌}
use ar_automation_agent.Prelude.Text.{Text, codes, join}
use ar_automation_agent.Markdown.Inline.{inline_md}
use ar_automation_agent.Markdown.Lists.{Item, build_list_html}
use ar_automation_agent.Markdown.Blocks.{
  Render, or_ul, on_text, push, flush_para, flush_list, flush_all,
}

-- While a list is open, a line of text is put off like the list, and the text comes first when both are
-- written: the paragraph stands before the list that it follows.
pub flush_all-on_text :
    (line : Text) (r : Render) (i : Item) (is : List Item)
    → r.para_buf ≡ []
    → r.list_buf ≡ i ∷ is
    → (flush_all (on_text line none r)).out
      ≡ (r.out ++ (codes "<p>" ++ (inline_md line ++ codes "</p>")) ∷ [])
        ++ build_list_html (i ∷ is) (or_ul r.list_type) ∷ []
unfolding flush_all flush_para flush_list push join
flush_all-on_text line r i is para items = simp (para, items) refl

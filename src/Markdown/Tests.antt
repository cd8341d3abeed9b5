-- ===== src/Markdown/Tests.antt =====
-- Markdown at concrete inputs, and its theorems applied to them.
use ar_automation_agent.Prelude.{◌≡◌, refl, false, none, some, List, [], ◌∷◌, ◌++◌, arith}
use ar_automation_agent.Prelude.Text.{Text, codes, split, join, trim, trim_start, starts_with}
use ar_automation_agent.Markdown.Inline.{
  escape_html, replace_char, inline_md, replace_all, code_span, link, bold, italic, span, upto,
}
use ar_automation_agent.Markdown.Lists.{ul, Item, list_parts, item_parts, repeated, build_list_html}
use ar_automation_agent.Markdown.Blocks.{
  Render, fresh, on_text, render_markdown, split_lines, without_return, on_lines, on_line, finish,
  flush_all, flush_para, flush_list, push, is_fence, on_fence, is_rule, heading, bullet, ordered,
  on_entry, after_space,
}
use ar_automation_agent.Markdown.Order.{flush_all-on_text}
use ar_automation_agent.Markdown.Balanced.{depth, depth-list_parts}
use ar_automation_agent.Markdown.Escaped.{each, has_markup, escape_html-each}

inline_example :
    inline_md (codes "a `x<y` **b** *c* [d](e)")
    ≡ codes
        "a <code>x&lt;y</code> <strong>b</strong> <em>c</em> <a href=\"e\" target=\"_blank\" rel=\"noopener noreferrer\">d</a>"
unfolding inline_md escape_html replace_char replace_all code_span link bold italic span upto
inline_example = refl

abbrev page : Text
page = codes "# Type\n\n- one\n  - two\n- three\nrest"

rendered :
    render_markdown page
    ≡ codes "<h1>Type</h1>\n<p>rest</p>\n<ul><li>one</li><ul><li>two</li></ul><li>three</li></ul>"
unfolding render_markdown split_lines without_return on_lines on_line finish flush_all flush_para
    flush_list push is_fence on_fence is_rule heading bullet ordered on_entry after_space split join
    trim trim_start starts_with inline_md escape_html replace_char replace_all code_span link bold
    italic span upto build_list_html list_parts item_parts repeated
rendered = refl

abbrev items : List Item
items =
    record { indent = 0; html = codes "a" }
    ∷ record { indent = 1; html = codes "b" }
    ∷ record { indent = 0; html = codes "c" }
    ∷ []

depth-list_parts_example : depth 0 (list_parts items) ≡ some 0
depth-list_parts_example = depth-list_parts items (omega arith, (omega arith, (omega arith, tt)))

-- An item that is indented by two steps opens one list and closes two.
skipped : depth 0 (list_parts (record { indent = 2; html = codes "a" } ∷ [])) ≡ none
unfolding list_parts item_parts repeated
skipped = refl

escape_html-each_example :
    (escape_html (codes "<b>") ≡ each (codes "<b>"))
    × (has_markup (escape_html (codes "<b>")) ≡ false)
escape_html-each_example = escape_html-each (codes "<b>")

abbrev open_list : Render
open_list = record fresh {
  list_buf = record { indent = 0; html = codes "a" } ∷ [];
  list_type = some ul;
}

flush_all-on_text_example :
    (flush_all (on_text (codes "b") none open_list)).out
    ≡ (codes "<p>" ++ (inline_md (codes "b") ++ codes "</p>"))
      ∷ build_list_html (record { indent = 0; html = codes "a" } ∷ []) ul
      ∷ []
flush_all-on_text_example =
    flush_all-on_text (codes "b") open_list (record { indent = 0; html = codes "a" }) [] refl refl

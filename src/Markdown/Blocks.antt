-- ===== src/Markdown/Blocks.antt =====
-- `renderMarkdown` of live-browser.js. A line has no carriage return but at its end.
use ar_automation_agent.Prelude.{
  ℕ, ◌+◌, ◌/◌, Bool, true, false, not, ◌&&◌, ◌||◌, Option, none, some, List, [], ◌∷◌, ◌++◌, length,
  drop, every_of, leb, ◌==◌, if◌then◌else◌,
}
use ar_automation_agent.Prelude.Text.{
  Text, codes, is_space, is_set, split, join, trim, trim_start, starts_with,
}
use ar_automation_agent.Markdown.Inline.{escape_html, inline_md, span}
use ar_automation_agent.Markdown.Lists.{ListType, ul, ol, Item, build_list_html}

-- Before a line feed, a carriage return goes with it.
unfoldable pub without_return : Text → Text
without_return [] = []
without_return (c ∷ []) = if c == 13 then [] else c ∷ []
without_return (c ∷ d ∷ cs) = c ∷ without_return (d ∷ cs)

abbrev pub without_returns : List Text → List Text
without_returns [] = []
without_returns (l ∷ []) = l ∷ []
without_returns (l ∷ m ∷ ls) = without_return l ∷ without_returns (m ∷ ls)

-- `md.split(/\r?\n/)`
unfoldable pub split_lines : Text → List Text
unfolding split without_return
split_lines md = without_returns (split 10 md)

abbrev pub is_word : ℕ → Bool
is_word c =
    (leb 48 c && leb c 57) || ((leb 65 c && leb c 90) || ((leb 97 c && leb c 122) || c == 95))

abbrev pub is_blank : Text → Bool
is_blank t = every_of is_space t

-- /^```(\w*)\s*$/
unfoldable pub is_fence : Text → Bool
unfolding span starts_with
is_fence line = starts_with (codes "```") line && is_blank (span is_word (drop 3 line)).1

-- /^\s*(?:---+|\*\*\*+)\s*$/
unfoldable pub is_rule : Text → Bool
unfolding trim
is_rule line =
    let t = trim line in
    leb 3 (length t) && (every_of (λ c. c == 45) t || every_of (λ c. c == 42) t)

abbrev pub last_of : ℕ → Text → Text
last_of c [] = c ∷ []
last_of c (d ∷ ds) = last_of d ds

-- Behind white space that ends the line, its last character is what `(.+)` takes.
abbrev pub body_or_last : Text → Text → Option Text
body_or_last (c ∷ d ∷ cs) [] = some (last_of d cs)
body_or_last s [] = none
body_or_last s (c ∷ cs) = some (c ∷ cs)

-- /\s+(.+)$/ from here on.
unfoldable pub after_space : Text → Option Text
unfolding trim_start
after_space [] = none
after_space (c ∷ cs) = if is_space c then body_or_last (c ∷ cs) (trim_start (c ∷ cs)) else none

-- /^(#{1,4})\s+(.+)$/
unfoldable pub heading : Text → Option (ℕ × Text)
unfolding span after_space
heading line =
    let marks = span (λ c. c == 35) line in
    let n = length marks.0 in
    if leb 1 n && leb n 4
    then elim (after_space marks.1) [ none ↦ none | some t ↦ some (n, t) ]
    else none

pub record Entry : Type 0 where
  pub spaces : ℕ
  pub kind : ListType
  pub text : Text

abbrev pub entry : ℕ → ListType → Option Text → Option Entry
entry spaces kind none = none
entry spaces kind (some t) = some (record { spaces = spaces; kind = kind; text = t })

-- /^(\s*)([-*])\s+(.+)$/
unfoldable pub bullet : Text → Option Entry
unfolding span after_space
bullet line =
    let head = span is_space line in
    elim head.1 [
      | [] ↦ none
      | c ∷ cs ↦ if c == 45 || c == 42 then entry (length head.0) ul (after_space cs) else none
    ]

-- /^(\s*)(\d+)\.\s+(.+)$/
unfoldable pub ordered : Text → Option Entry
unfolding span after_space
ordered line =
    let head = span is_space line in
    let number = span (λ c. leb 48 c && leb c 57) head.1 in
    if is_set number.0
    then elim number.1 [
      | [] ↦ none
      | c ∷ cs ↦ if c == 46 then entry (length head.0) ol (after_space cs) else none
    ]
    else none

abbrev pub or_entry : Option Entry → Option Entry → Option Entry
or_entry none o = o
or_entry (some e) o = some e

-- `fence` is `inCode`, and the buffers are those of the source.
pub record Render : Type 0 where
  pub out : List Text
  pub in_code : Bool
  pub code_buf : List Text
  pub para_buf : List Text
  pub list_buf : List Item
  pub list_type : Option ListType

abbrev pub fresh : Render
fresh = record {
  out = [];
  in_code = false;
  code_buf = [];
  para_buf = [];
  list_buf = [];
  list_type = none;
}

unfoldable pub push : Text → Render → Render
push html r = record r { out = r.out ++ html ∷ [] }

abbrev pub or_ul : Option ListType → ListType
or_ul none = ul
or_ul (some t) = t

abbrev pub code_html : List Text → Text
code_html buf = codes "<pre><code>" ++ (escape_html (join 10 buf) ++ codes "</code></pre>")

unfoldable pub flush_para : Render → Render
unfolding push inline_md join
flush_para r = elim r.para_buf [
  | [] ↦ r
  | l ∷ ls ↦ record (push (codes "<p>" ++ (inline_md (join 32 (l ∷ ls)) ++ codes "</p>")) r) {
    para_buf = [];
  }
]

-- Where there are items, there is a type of the list.
unfoldable pub flush_list : Render → Render
unfolding push build_list_html
flush_list r = elim r.list_buf [
  | [] ↦ r
  | i ∷ is ↦ record (push (build_list_html (i ∷ is) (or_ul r.list_type)) r) {
    list_buf = [];
    list_type = none;
  }
]

unfoldable pub flush_all : Render → Render
unfolding flush_para flush_list
flush_all r = flush_list (flush_para r)

unfoldable pub on_fence : Render → Render
unfolding flush_all push escape_html join
on_fence r =
    if r.in_code
    then record (push (code_html r.code_buf) r) { in_code = false }
    else record (flush_all r) { in_code = true; code_buf = [] }

abbrev pub heading_html : ℕ → Text → Text
heading_html n t =
    codes "<h" ++ ((48 + n) ∷ codes ">" ++ (inline_md t ++ (codes "</h" ++ (48 + n) ∷ codes ">")))

abbrev pub same_type : ListType → ListType → Bool
same_type ul ul = true
same_type ol ol = true
same_type a b = false

abbrev pub is_other : Option ListType → ListType → Bool
is_other none t = false
is_other (some u) t = not (same_type u t)

unfoldable pub on_entry : Entry → Render → Render
unfolding flush_para flush_list inline_md
on_entry e r =
    let p = flush_para r in
    let q = if is_other p.list_type e.kind then flush_list p else p in
    record q {
      list_type = some e.kind;
      list_buf = q.list_buf ++ record { indent = e.spaces / 2; html = inline_md e.text } ∷ [];
    }

abbrev pub on_text : Text → Option Entry → Render → Render
on_text line none r = record r { para_buf = r.para_buf ++ line ∷ [] }
on_text line (some e) r = on_entry e r

abbrev pub on_block : Text → Option (ℕ × Text) → Render → Render
on_block line none r = on_text line (or_entry (bullet line) (ordered line)) r
on_block line (some (n, t)) r = push (heading_html n t) (flush_all r)

unfoldable pub on_line : Text → Render → Render
unfolding is_fence on_fence flush_all is_rule push heading bullet ordered on_entry inline_md trim
on_line line r =
    if is_fence line
    then on_fence r
    else if r.in_code
    then record r { code_buf = r.code_buf ++ line ∷ [] }
    else if not (is_set (trim line))
    then flush_all r
    else if is_rule line
    then push (codes "<hr />") (flush_all r)
    else on_block line (heading line) r

unfoldable pub on_lines : List Text → Render → Render
unfolding on_line
on_lines [] r = r
on_lines (l ∷ ls) r = on_lines ls (on_line l r)

abbrev pub is_some_line : List Text → Bool
is_some_line [] = false
is_some_line (l ∷ ls) = true

unfoldable pub finish : Render → Render
unfolding flush_all push escape_html join
finish r =
    let q = flush_all r in
    if q.in_code && is_some_line q.code_buf then push (code_html q.code_buf) q else q

unfoldable pub render_markdown : Text → Text
unfolding on_lines finish split_lines join
render_markdown md = join 10 (finish (on_lines (split_lines md) fresh)).out

-- ===== src/Refs/Query.antt =====
-- `queryManualEditRef` of live-browser.js, with the functions that it calls.
use ar_automation_agent.Prelude.{
  ℕ, ◌+◌, ◌-◌, ◌*◌, Bool, true, false, not, ◌&&◌, ◌||◌, Option, none, some, List, [], ◌∷◌, map,
  length, drop, keep, some_of, every_of, leb, ◌==◌, if◌then◌else◌,
}
use ar_automation_agent.Prelude.Text.{Text, codes, text_eq, is_space, is_set, lower, split, trim}
use ar_automation_agent.Refs.Document.{
  Attrs, Forest, nil, node, Place, this, inside, next, Element, body, below, tag_of, is_tag,
  index_among_same_tag,
}

pub record Segment : Type 0 where
  pub tag : Text
  pub id : Option Text
  pub classes : List Text
  pub nth : Option ℕ

abbrev pub is_digit : ℕ → Bool
is_digit c = leb 48 c && leb c 57

abbrev pub number_so_far : Option ℕ → ℕ
number_so_far none = 0
number_so_far (some n) = n

abbrev pub is_end : Text → Bool
is_end [] = true
is_end (c ∷ cs) = false

-- `(\d+)\)$`, behind some digits.
unfoldable pub nth_close : Option ℕ → Text → Option ℕ
nth_close o [] = none
nth_close o (c ∷ cs) =
    let rest = nth_close (some (number_so_far o * 10 + (c - 48))) cs in
    if is_digit c then rest else if c == 41 && is_end cs then o else none

-- What stands behind a prefix.
unfoldable pub after : Text → Text → Option Text
after [] s = some s
after (p ∷ ps) [] = none
after (p ∷ ps) (c ∷ cs) = let rest = after ps cs in if p == c then rest else none

-- `:nth-of-type((\d+))$` from here on.
unfoldable pub nth_here : ℕ → Text → Option ℕ
unfolding nth_close after
nth_here c cs =
    if c == 58
    then elim (after (codes "nth-of-type(") cs) [ none ↦ none | some s ↦ nth_close none s ]
    else none

-- The first match in the segment, with what stands before it.
unfoldable pub nth_match : Text → Option (Text × ℕ)
unfolding nth_here
nth_match [] = none
nth_match (c ∷ cs) = elim (nth_here c cs) [
  | some n ↦ some ([], n)
  | none ↦ elim (nth_match cs) [ none ↦ none | some (s, n) ↦ some (c ∷ s, n) ]
]

abbrev pub base_of : Text → Option (Text × ℕ) → Text
base_of s none = s
base_of s (some (b, n)) = b

abbrev pub nth_of : Option (Text × ℕ) → Option ℕ
nth_of none = none
nth_of (some (b, n)) = some n

-- `[^#.:\s]`
abbrev pub is_in_tag : ℕ → Bool
is_in_tag c = not (c == 35 || c == 46 || c == 58 || is_space c)

-- `[^#.]`
abbrev pub is_in_id : ℕ → Bool
is_in_id c = not (c == 35 || c == 46)

-- The longest start of a text whose characters pass a test.
unfoldable pub prefix : (ℕ → Bool) → Text → Text
prefix p [] = []
prefix p (c ∷ cs) = let rest = prefix p cs in if p c then c ∷ rest else []

-- `/#([^#.]+)/`
abbrev pub is_id_at : ℕ → Text → Bool
is_id_at c cs = c == 35 && is_set (prefix is_in_id cs)

unfoldable pub find_id : Text → Option Text
unfolding prefix
find_id [] = none
find_id (c ∷ cs) =
    let rest = find_id cs in if is_id_at c cs then some (prefix is_in_id cs) else rest

unfoldable pub without_id : Text → Text
unfolding prefix
without_id [] = []
without_id (c ∷ cs) =
    let rest = without_id cs in
    if is_id_at c cs then drop (length (prefix is_in_id cs)) cs else c ∷ rest

unfoldable pub segment_of : Text → Option ℕ → Option Segment
unfolding prefix find_id without_id
segment_of base nth =
    let tag = lower (prefix is_in_tag base) in
    if is_set tag
    then some (record {
      tag = tag;
      id = find_id base;
      classes = keep is_set (split 46 (without_id (drop (length tag) base)));
      nth = nth;
    })
    else none

unfoldable pub parse_manual_edit_ref_segment : Text → Option Segment
unfolding nth_match segment_of
parse_manual_edit_ref_segment s = segment_of (base_of s (nth_match s)) (nth_of (nth_match s))

abbrev pub is_id : Option Text → Text → Bool
is_id none id = true
is_id (some t) id = not (is_set t) || text_eq id t

-- `segment.nth &&` passes over 0.
abbrev pub is_nth : Option ℕ → ℕ → Bool
is_nth none i = true
is_nth (some n) i = n == 0 || i == n

abbrev pub contains : List Text → Text → Bool
contains classes c = some_of (λ d. text_eq d c) classes

unfoldable pub element_matches_manual_ref_segment : List Text → Attrs → Segment → Bool
element_matches_manual_ref_segment before a s =
    is_tag s.tag a
    && (is_id s.id a.id
        && (every_of (contains a.classes) s.classes
            && is_nth s.nth (index_among_same_tag before a)))

abbrev pub map_place : {f g : Forest} → (Place f → Place g) → Option (Place f) → Option (Place g)
map_place h none = none
map_place h (some p) = some (h p)

-- `children.find` of the first segment, and of the others in the children of what it finds.
unfoldable pub descend : Segment → List Text → List Text → (f : Forest) → Option (Place f)
unfolding element_matches_manual_ref_segment parse_manual_edit_ref_segment
descend s parts before nil = none
descend s parts before (node a inner others) =
    elim (element_matches_manual_ref_segment before a s) [
      | true ↦ elim parts [
        | [] ↦ some this
        | q ∷ qs ↦ elim (parse_manual_edit_ref_segment q) [
          | none ↦ none
          | some t ↦ map_place inside (descend t qs [] inner)
        ]
      ]
      | false ↦ map_place next (descend s parts (tag_of a ∷ before) others)
    ]

abbrev pub to_element : {f : Forest} → Option (Place f) → Option (Element f)
to_element none = none
to_element (some p) = some (below p)

-- The segments behind the body.
unfoldable pub from_body : List Text → (f : Forest) → Option (Element f)
unfolding descend parse_manual_edit_ref_segment
from_body [] f = some body
from_body (q ∷ qs) f = elim (parse_manual_edit_ref_segment q) [
  | none ↦ none
  | some s ↦ to_element (descend s qs [] f)
]

-- `b` is the body itself.
unfoldable pub query_parts : List Text → Attrs → (f : Forest) → Option (Element f)
unfolding descend from_body parse_manual_edit_ref_segment element_matches_manual_ref_segment
query_parts [] b f = none
query_parts (p ∷ ps) b f = elim (parse_manual_edit_ref_segment p) [
  | none ↦ none
  | some s ↦ elim (text_eq s.tag (codes "body")) [
    | true ↦ elim (element_matches_manual_ref_segment [] b s) [
      | true ↦ from_body ps f
      | false ↦ none
    ]
    | false ↦ to_element (descend s ps [] f)
  ]
]

-- A reference that is null finds nothing.
unfoldable pub query_manual_edit_ref : Option Text → Attrs → (f : Forest) → Option (Element f)
unfolding split trim query_parts
query_manual_edit_ref none b f = none
query_manual_edit_ref (some ref) b f = query_parts (keep is_set (map trim (split 62 ref))) b f

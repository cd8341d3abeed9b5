-- ===== src/Refs/Document.antt =====
-- `documentRefForElement` of live-browser.js, with the functions that it calls.
use ar_automation_agent.Prelude.{
  ℕ, zero, suc, ◌+◌, ◌/◌, ◌%◌, Bool, true, false, not, ◌&&◌, ◌||◌, Option, none, some, List, [],
  ◌∷◌, ◌++◌, map, take, keep, ltb, ◌==◌, if◌then◌else◌,
}
use ar_automation_agent.Prelude.Text.{
  Text, codes, text_eq, is_space, is_set, lower, join, starts_with,
}

-- What an element has itself. `classes` is its `classList`.
pub record Attrs : Type 0 where
  pub tag_name : Text
  pub id : Text
  pub classes : List Text

-- The element children of a node: the first of them with its own children, and the others.
pub data Forest : Type 0 where
  nil : Forest
  node : Attrs → Forest → Forest → Forest

-- A node below a forest.
pub data Place : Forest → Type 0 where
  this : {a : Attrs} {inner others : Forest} → Place (node a inner others)
  inside : {a : Attrs} {inner others : Forest} → Place inner → Place (node a inner others)
  next : {a : Attrs} {inner others : Forest} → Place others → Place (node a inner others)

-- An element of the document, of whose body the forest is the children.
pub data Element (f : Forest) : Type 0 where
  body : Element f
  below : Place f → Element f

abbrev pub tag_of : Attrs → Text
tag_of a = lower a.tag_name

abbrev pub is_joined : ℕ → Bool
is_joined c = c == 62 || is_space c

-- A run of `>` and white space becomes `_`; `joins` is within one.
unfoldable pub joined : Bool → Text → Text
joined joins [] = []
joined joins (c ∷ cs) =
    let run = joined true cs in
    let free = joined false cs in
    if is_joined c then (if joins then run else 95 ∷ run) else c ∷ free

unfoldable pub normalize_document_ref_token : Text → Text
unfolding joined
normalize_document_ref_token t = joined false t

unfoldable pub document_ref_id_suffix : Attrs → Text
document_ref_id_suffix a = if is_set a.id then 35 ∷ normalize_document_ref_token a.id else []

abbrev pub is_named : Text → Bool
is_named c = is_set c && not (starts_with (codes "impeccable-") c)

-- The first two classes that are not of the tool.
abbrev pub named_classes : Attrs → List Text
named_classes a = take 2 (keep is_named a.classes)

abbrev pub class_suffix : List Text → Text
class_suffix [] = []
class_suffix (c ∷ cs) = 46 ∷ join 46 (c ∷ cs)

unfoldable pub document_ref_class_suffix : Attrs → Text
document_ref_class_suffix a = class_suffix (map normalize_document_ref_token (named_classes a))

-- A number in decimal, with its last digits `out` done; the fuel is more than the number.
unfoldable pub emit : ℕ → ℕ → Text → Text
emit zero n out = out
emit (suc k) n out =
    let rest = emit k (n / 10) ((48 + n % 10) ∷ out) in if ltb n 10 then (48 + n) ∷ out else rest

unfoldable pub number_text : ℕ → Text
unfolding emit
number_text n = emit (suc n) n []

unfoldable pub count : Text → List Text → ℕ
unfolding text_eq
count t [] = 0
count t (u ∷ us) = (if text_eq u t then 1 else 0) + count t us

-- The place among the children with the same tag, counted from 1: `before` are the tags of the
-- children before.
unfoldable pub index_among_same_tag : List Text → Attrs → ℕ
index_among_same_tag before a = suc (count (tag_of a) before)

abbrev pub nth_suffix : ℕ → Text
nth_suffix n = codes ":nth-of-type(" ++ (number_text n ++ 41 ∷ [])

unfoldable pub document_ref_segment : List Text → Attrs → Text
document_ref_segment before a =
    tag_of a
    ++ (document_ref_id_suffix a
        ++ (document_ref_class_suffix a ++ nth_suffix (index_among_same_tag before a)))

-- The parts of the elements below an element, and whether the walk up has stopped there.
abbrev pub Walk : Type 0
Walk = Bool × List Text

abbrev pub is_tag : Text → Attrs → Bool
is_tag t a = text_eq (tag_of a) t

abbrev pub up : List Text → Attrs → Walk → Walk
up before a (true, parts) = (true, parts)
up before a (false, parts) =
    if is_tag (codes "html") a
    then (true, parts)
    else if is_tag (codes "body") a
    then (true, codes "body" ∷ parts)
    else (false, document_ref_segment before a ∷ parts)

-- The loop that walks up to the body, with the last turn first.
unfoldable pub walk_up : {f : Forest} → List Text → Place f → Walk
walk_up {f = nil} before p = elim p [ ]
walk_up {f = node a inner others} before this = up before a (false, [])
walk_up {f = node a inner others} before (inside p) = up before a (walk_up [] p)
walk_up {f = node a inner others} before (next p) = walk_up (tag_of a ∷ before) p

abbrev pub at_body : Walk → List Text
at_body (true, parts) = parts
at_body (false, parts) = codes "body" ∷ parts

unfoldable pub document_ref_parts : {f : Forest} → Element f → List Text
document_ref_parts body = codes "body" ∷ []
document_ref_parts (below p) = at_body (walk_up [] p)

-- `text || null`
abbrev pub or_null : Text → Option Text
or_null t = if is_set t then some t else none

unfoldable pub document_ref_for_element : {f : Forest} → Element f → Option Text
unfolding join
document_ref_for_element e = or_null (join 62 (document_ref_parts e))

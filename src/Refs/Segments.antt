-- ===== src/Refs/Segments.antt =====
-- A segment that was printed is read back.
use ar_automation_agent.Prelude.{
  ℕ, ◌≡◌, refl, sym, ap, ◌∙◌, Bool, true, false, not, ◌&&◌, some, List, [], ◌∷◌, ◌++◌, keep, All,
  All-keep, All-take, every_of, arith, ◌==◌, if◌then◌else◌, Bool-cases, inl, inr, or_left, or_right,
}
use mathlib.Core.List.{append_assoc}
use ar_automation_agent.Prelude.Text.{
  Text, codes, text_eq, text_eq_refl, is_set, lower, split, split-join, IsFree,
}
use ar_automation_agent.Refs.Document.{
  Attrs, tag_of, is_tag, is_named, named_classes, class_suffix, document_ref_id_suffix,
  document_ref_class_suffix, nth_suffix, index_among_same_tag, document_ref_segment, or_null,
}
use ar_automation_agent.Refs.Query.{
  Segment, is_in_tag, is_in_id, prefix, find_id, without_id, segment_of, contains, is_id,
  parse_manual_edit_ref_segment, element_matches_manual_ref_segment,
}
use ar_automation_agent.Refs.Lexing.{
  match-suffix, prefix-All, drop-append, lower-lower, find_id-skip, find_id-free, without_id-free,
  IsFree-join, is_token, IsToken, token-IsFree, token-id, normalize-token, normalize-tokens,
}

abbrev pub is_tag_token : ℕ → Bool
is_tag_token c = is_in_tag c && not (c == 62)

-- The names of an element that its reference repeats are plain ones, and it is not the root or the
-- body.
pub record IsReferable (a : Attrs) : Type 0 where
  pub tag : All (λ c. is_tag_token c ≡ true) (tag_of a)
  pub has_tag : is_set (tag_of a) ≡ true
  pub id : IsToken a.id
  pub classes : All IsToken (named_classes a)
  pub not_html : is_tag (codes "html") a ≡ false
  pub not_body : is_tag (codes "body") a ≡ false

-- What the reference says of an element.
abbrev pub printed : List Text → Attrs → Segment
printed before a = record {
  tag = tag_of a;
  id = or_null a.id;
  classes = named_classes a;
  nth = some (index_among_same_tag before a);
}

All-kept : (cs : List Text) → All (λ c. is_set c ≡ true) (keep is_named cs)
All-kept [] = tt
All-kept ([] ∷ cs) = All-kept cs
All-kept ((d ∷ ds) ∷ cs) = elim (Bool-cases (is_named (d ∷ ds))) [
  | inl e ↦ rw e (refl, All-kept cs)
  | inr e ↦ rw e (All-kept cs)
]

keep-set : (cs : List Text) → All (λ c. is_set c ≡ true) cs → keep is_set cs ≡ cs
keep-set [] h = refl
keep-set (c ∷ cs) (h, hs) = rw (h, keep-set cs hs) refl

contains-others :
    (c : Text) (cs xs : List Text)
    → All (λ d. contains cs d ≡ true) xs
    → All (λ d. contains (c ∷ cs) d ≡ true) xs
contains-others c cs [] h = tt
contains-others c cs (x ∷ xs) (h, hs) = (or_right (text_eq c x) _ h, contains-others c cs xs hs)

contains-All : (cs : List Text) → All (λ d. contains cs d ≡ true) cs
contains-All [] = tt
contains-All (c ∷ cs) = (or_left _ _ (text_eq_refl c), contains-others c cs cs (contains-All cs))

every-All : (p : Text → Bool) (xs : List Text) → All (λ x. p x ≡ true) xs → every_of p xs ≡ true
every-All p [] h = refl
every-All p (x ∷ xs) (h, hs) = rw h (every-All p xs hs)

-- An element matches what its reference says of it.
pub matches-printed :
    (before : List Text) (a : Attrs)
    → element_matches_manual_ref_segment before a (printed before a) ≡ true
unfolding element_matches_manual_ref_segment
matches-printed before a =
    let named : every_of (contains a.classes) (named_classes a) ≡ true =
      every-All _ _ (All-take _ 2 _ (All-keep _ is_named a.classes (contains-All a.classes))) in
    let nth : (index_among_same_tag before a == index_among_same_tag before a) ≡ true =
      ground arith in
    rw (text_eq_refl (tag_of a), own_id a.id, named, nth) (or_right _ true refl)
  where
    own_id : (t : Text) → is_id (or_null t) t ≡ true
    own_id [] = refl
    own_id (c ∷ cs) = text_eq_refl (c ∷ cs)

abbrev pub id_part : Text → Text
id_part t = if is_set t then 35 ∷ t else []

tags-IsFree : (t : Text) → All (λ c. is_tag_token c ≡ true) t → IsFree 35 t
tags-IsFree [] h = refl
tags-IsFree (c ∷ cs) (h, hs) = rw (tags-IsFree cs hs) (ground (arith, h))

tags-in : (t : Text) → All (λ c. is_tag_token c ≡ true) t → All (λ c. is_in_tag c ≡ true) t
tags-in [] h = tt
tags-in (c ∷ cs) (h, hs) = (ground (arith, h), tags-in cs hs)

stops : (t : Text) (cs : List Text) → prefix is_in_tag (id_part t ++ class_suffix cs) ≡ []
unfolding prefix
stops [] [] = refl
stops [] (c ∷ cs) = refl
stops (d ∷ t) cs = refl

stops_id : (cs : List Text) → prefix is_in_id (class_suffix cs) ≡ []
unfolding prefix
stops_id [] = refl
stops_id (c ∷ cs) = refl

tokens-IsFree :
    (sep : ℕ) (cs : List Text) → is_token sep ≡ false → All IsToken cs → All (IsFree sep) cs
tokens-IsFree sep [] e h = tt
tokens-IsFree sep (c ∷ cs) e (h, hs) = (token-IsFree sep c e h, tokens-IsFree sep cs e hs)

pub class-IsFree :
    (sep : ℕ) (cs : List Text)
    → is_token sep ≡ false
    → (46 == sep) ≡ false
    → All IsToken cs
    → IsFree sep (class_suffix cs)
class-IsFree sep [] e other h = refl
class-IsFree sep (c ∷ cs) e other h =
    rw other (IsFree-join sep 46 (c ∷ cs) other (tokens-IsFree sep (c ∷ cs) e h))

own-id :
    (d : ℕ) (t : Text) (cs : List Text)
    → IsToken (d ∷ t)
    → prefix is_in_id (d ∷ t ++ class_suffix cs) ≡ d ∷ t
own-id d t cs h = prefix-All is_in_id (d ∷ t) (class_suffix cs) (token-id (d ∷ t) h) (stops_id cs)

finds_id :
    (t : Text) (cs : List Text)
    → IsToken t
    → All IsToken cs
    → find_id (id_part t ++ class_suffix cs) ≡ or_null t
unfolding find_id
finds_id [] cs h hs = find_id-free (class_suffix cs) (class-IsFree 35 cs refl refl hs)
finds_id (d ∷ t) cs h hs = rw (own-id d t cs h) refl

removes_id :
    (t : Text) (cs : List Text)
    → IsToken t
    → All IsToken cs
    → without_id (id_part t ++ class_suffix cs) ≡ class_suffix cs
unfolding without_id
removes_id [] cs h hs = without_id-free (class_suffix cs) (class-IsFree 35 cs refl refl hs)
removes_id (d ∷ t) cs h hs = rw (own-id d t cs h) (drop-append (d ∷ t) (class_suffix cs))

splits :
    (cs : List Text)
    → All IsToken cs
    → All (λ c. is_set c ≡ true) cs
    → keep is_set (split 46 (class_suffix cs)) ≡ cs
unfolding split
splits [] h set = refl
splits (c ∷ cs) h set =
    rw (split-join 46 c cs (tokens-IsFree 46 (c ∷ cs) refl h)) (keep-set (c ∷ cs) set)

-- What stands before `:nth-of-type`, with what the tag, the id and the classes are in it.
base :
    (t id : Text) (cs : List Text) (n : ℕ)
    → All (λ c. is_tag_token c ≡ true) t
    → is_set t ≡ true
    → lower t ≡ t
    → IsToken id
    → All IsToken cs
    → All (λ c. is_set c ≡ true) cs
    → segment_of (t ++ (id_part id ++ class_suffix cs)) (some n)
      ≡ some (record { tag = t; id = or_null id; classes = cs; nth = some n })
unfolding segment_of
base t id cs n h has low hid hcs set =
    let own : prefix is_in_tag (t ++ (id_part id ++ class_suffix cs)) ≡ t =
      prefix-All is_in_tag t _ (tags-in t h) (stops id cs) in
    simp
      (
        own,
        low,
        has,
        drop-append t (id_part id ++ class_suffix cs),
        removes_id id cs hid hcs,
        find_id-skip t (id_part id ++ class_suffix cs) (tags-IsFree t h),
        finds_id id cs hid hcs,
        splits cs hcs set,
      )
      refl

pub segment-parts :
    (before : List Text) (a : Attrs)
    → IsReferable a
    → document_ref_segment before a
      ≡ (tag_of a ++ (id_part a.id ++ class_suffix (named_classes a)))
        ++ nth_suffix (index_among_same_tag before a)
unfolding document_ref_segment document_ref_id_suffix document_ref_class_suffix
segment-parts before a w =
    rw (normalize-token a.id w.id, normalize-tokens (named_classes a) w.classes)
      (sym
        (append_assoc (tag_of a) _ _ ∙ ap (λ z. tag_of a ++ z) (append_assoc (id_part a.id) _ _)))

-- What the segment of an element with plain names is read as: all that it was printed from.
pub parse-segment :
    (before : List Text) (a : Attrs)
    → IsReferable a
    → parse_manual_edit_ref_segment (document_ref_segment before a) ≡ some (printed before a)
unfolding parse_manual_edit_ref_segment
parse-segment before a w =
    let names : Text = tag_of a ++ (id_part a.id ++ class_suffix (named_classes a)) in
    let n = index_among_same_tag before a in
    let found = match-suffix names n in
    rw (segment-parts before a w, found)
      (base (tag_of a) a.id (named_classes a) n w.tag w.has_tag (lower-lower a.tag_name) w.id
        w.classes (All-take _ 2 _ (All-kept a.classes)))

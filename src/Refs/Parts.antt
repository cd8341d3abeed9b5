-- ===== src/Refs/Parts.antt =====
-- The parts of a reference are cut out as they were joined.
use mathlib.Core.List.{append_assoc}
use ar_automation_agent.Prelude.{
  ℕ, ◌≡◌, refl, sym, ◌∙◌, true, false, List, [], ◌∷◌, ◌++◌, map, keep, All, arith,
}
use ar_automation_agent.Prelude.Text.{
  Text, codes, is_space, is_set, split, join, split-join, trim, trim_start, trim-plain, IsFree,
}
use ar_automation_agent.Refs.Document.{
  Attrs, Forest, nil, node, Place, this, inside, next, tag_of, index_among_same_tag, nth_suffix,
  number_text, class_suffix, named_classes, document_ref_segment,
}
use ar_automation_agent.Refs.Decimal.{number-plain}
use ar_automation_agent.Refs.Lexing.{IsFree-append, token-IsFree, is_token}
use ar_automation_agent.Refs.Segments.{
  is_tag_token, IsReferable, segment-parts, id_part, class-IsFree,
}
use ar_automation_agent.Refs.Way.{IsReferablePath, first-IsReferable, rest_of}

-- The text of a part, once it is cut out and trimmed.
pub record IsPart (t : Text) : Type 0 where
  free : IsFree 62 t
  set : is_set t ≡ true
  trimmed : trim t ≡ t

pub tags-part : (t : Text) → All (λ c. is_tag_token c ≡ true) t → IsFree 62 t
tags-part [] h = refl
tags-part (c ∷ cs) (h, hs) = rw (tags-part cs hs) (ground (arith, h))

pub tag-starts :
    (t rest : Text)
    → All (λ c. is_tag_token c ≡ true) t
    → is_set t ≡ true
    → (trim_start (t ++ rest) ≡ t ++ rest) × (is_set (t ++ rest) ≡ true)
unfolding trim_start
tag-starts [] rest h set = cc
tag-starts (c ∷ cs) rest (h, hs) set =
    let solid : is_space c ≡ false = ground (arith, h) in (rw solid refl, refl)

pub suffix-IsFree : (n : ℕ) → IsFree 62 (nth_suffix n)
suffix-IsFree n =
    IsFree-append 62 (codes ":nth-of-type(") (number_text n ++ 41 ∷ []) refl (
      IsFree-append 62 (number_text n) (41 ∷ []) (number-plain _ n (λ d h. ground (arith, h))) refl)

pub id_part-IsFree : (t : Text) → All (λ c. is_token c ≡ true) t → IsFree 62 (id_part t)
id_part-IsFree [] h = refl
id_part-IsFree (c ∷ cs) h = token-IsFree 62 (c ∷ cs) refl h

pub segment-IsPart :
    (before : List Text) (a : Attrs) → IsReferable a → IsPart (document_ref_segment before a)
segment-IsPart before a w =
    let names = tag_of a ++ (id_part a.id ++ class_suffix (named_classes a)) in
    let n = index_among_same_tag before a in
    rw (segment-parts before a w) (record {
      free =
          IsFree-append 62 names (nth_suffix n)
            (IsFree-append 62 (tag_of a) _ (tags-part (tag_of a) w.tag) (
              IsFree-append 62 (id_part a.id) _ (id_part-IsFree a.id w.id)
                (class-IsFree 62 (named_classes a) refl refl w.classes)))
            (suffix-IsFree n);
      set =
          rw
            (append_assoc (tag_of a) (id_part a.id ++ class_suffix (named_classes a))
              (nth_suffix n))
            (tag-starts (tag_of a) _ w.tag w.has_tag).1;
      trimmed =
          trim-plain (names ++ nth_suffix n) ((names ++ codes ":nth-of-type(") ++ number_text n) 41
            (rw
              (append_assoc (tag_of a) (id_part a.id ++ class_suffix (named_classes a))
                (nth_suffix n))
              (tag-starts (tag_of a) _ w.tag w.has_tag).0)
            (sym (
              append_assoc (names ++ codes ":nth-of-type(") (number_text n) (41 ∷ [])
              ∙ append_assoc names (codes ":nth-of-type(") (number_text n ++ 41 ∷ [])))
            refl;
    })

pub rest-IsPart : {f : Forest} (p : Place f) → IsReferablePath p → All IsPart (rest_of p)
rest-IsPart {f = nil} p w = elim p [ ]
rest-IsPart {f = node a inner others} this w = tt
rest-IsPart {f = node a inner others} (inside p) (w, ws) =
    (segment-IsPart _ _ (first-IsReferable [] p ws), rest-IsPart p ws)
rest-IsPart {f = node a inner others} (next p) w = rest-IsPart p w

pub body-IsPart : IsPart (codes "body")
unfolding trim trim_start
body-IsPart = record { free = refl; set = refl; trimmed = refl }

-- The parts that were joined are the parts that are read.
pub parts-IsFree : (ts : List Text) → All IsPart ts → All (IsFree 62) ts
parts-IsFree [] h = tt
parts-IsFree (t ∷ ts) (h, hs) = (h.free, parts-IsFree ts hs)

pub parts-trimmed : (ts : List Text) → All IsPart ts → keep is_set (map trim ts) ≡ ts
parts-trimmed [] h = refl
parts-trimmed (t ∷ ts) (h, hs) = rw (h.trimmed, h.set, parts-trimmed ts hs) refl

pub parts-read :
    (t : Text) (ts : List Text)
    → All IsPart (t ∷ ts)
    → keep is_set (map trim (split 62 (join 62 (t ∷ ts)))) ≡ t ∷ ts
parts-read t ts h = rw (split-join 62 t ts (parts-IsFree (t ∷ ts) h)) (parts-trimmed (t ∷ ts) h)

-- ===== src/Refs/Way.antt =====
-- The walk down by the segments of a way.
use ar_automation_agent.Prelude.{
  suc, ◌≤◌, ◌≡◌, refl, ap, Bool, true, false, ◌&&◌, some, List, [], ◌∷◌, every_of, arith,
  Bool-cases, inl, inr,
}
use ar_automation_agent.Prelude.Text.{Text, text_eq, eq_of_text_eq}
use ar_automation_agent.Refs.Document.{
  Attrs, Forest, nil, node, Place, this, inside, next, tag_of, is_tag, count, index_among_same_tag,
  named_classes, or_null, document_ref_segment, walk_up,
}
use ar_automation_agent.Refs.Query.{
  contains, is_id, is_nth, element_matches_manual_ref_segment, descend,
}
use ar_automation_agent.Refs.Segments.{IsReferable, printed, matches-printed, parse-segment}

-- The elements on the way from the body to a place can be referred to.
abbrev pub IsReferablePath : {f : Forest} → Place f → Type 0
IsReferablePath {f = nil} p = elim p [ ]
IsReferablePath {f = node a inner others} this = IsReferable a
IsReferablePath {f = node a inner others} (inside p) = IsReferable a × IsReferablePath p
IsReferablePath {f = node a inner others} (next p) = IsReferablePath p

-- The first element of the way, with the tags of the siblings before it.
abbrev pub first_of : {f : Forest} → List Text → Place f → List Text × Attrs
first_of {f = nil} before p = elim p [ ]
first_of {f = node a inner others} before this = (before, a)
first_of {f = node a inner others} before (inside p) = (before, a)
first_of {f = node a inner others} before (next p) = first_of (tag_of a ∷ before) p

abbrev pub segment_at : {f : Forest} → List Text → Place f → Text
segment_at before p = document_ref_segment (first_of before p).0 (first_of before p).1

abbrev pub rest_of : {f : Forest} → Place f → List Text
rest_of {f = nil} p = elim p [ ]
rest_of {f = node a inner others} this = []
rest_of {f = node a inner others} (inside p) = segment_at [] p ∷ rest_of p
rest_of {f = node a inner others} (next p) = rest_of p

pub first-IsReferable :
    {f : Forest} (before : List Text) (p : Place f)
    → IsReferablePath p
    → IsReferable (first_of before p).1
first-IsReferable {f = nil} before p w = elim p [ ]
first-IsReferable {f = node a inner others} before this w = w
first-IsReferable {f = node a inner others} before (inside p) (w, ws) = w
first-IsReferable {f = node a inner others} before (next p) w =
    first-IsReferable (tag_of a ∷ before) p w

pub walk-parts :
    {f : Forest} (before : List Text) (p : Place f)
    → IsReferablePath p
    → walk_up before p ≡ (false, segment_at before p ∷ rest_of p)
unfolding walk_up
walk-parts {f = nil} before p w = elim p [ ]
walk-parts {f = node a inner others} before this w = rw (w.not_html, w.not_body) refl
walk-parts {f = node a inner others} before (inside p) (w, ws) =
    rw (walk-parts [] p ws, w.not_html, w.not_body) refl
walk-parts {f = node a inner others} before (next p) w = walk-parts (tag_of a ∷ before) p w

pub count-le :
    {f : Forest} (t : Text) (before : List Text) (p : Place f)
    → count t before ≤ count t (first_of before p).0
unfolding count
count-le {f = nil} t before p = elim p [ ]
count-le {f = node a inner others} t before this = omega arith
count-le {f = node a inner others} t before (inside p) = omega arith
count-le {f = node a inner others} t before (next p) =
    grind (arith, count-le t (tag_of a ∷ before) p)

pub and_false : (a b c : Bool) → (a && (b && (c && false))) ≡ false
and_false true true true = refl
and_false true true false = refl
and_false true false c = refl
and_false false b c = refl

-- A sibling before the element does not match what is printed of it: it has another tag or another
-- number.
pub matches-earlier :
    (before fb : List Text) (a b : Attrs)
    → count (tag_of b) (tag_of a ∷ before) ≤ count (tag_of b) fb
    → element_matches_manual_ref_segment before a (printed fb b) ≡ false
unfolding element_matches_manual_ref_segment count index_among_same_tag
matches-earlier before fb a b h = elim (Bool-cases (text_eq (tag_of a) (tag_of b))) [
  | inr e ↦ rw e refl
  | inl e ↦
      let same : tag_of a ≡ tag_of b = eq_of_text_eq _ _ e in
      let counted : count (tag_of b) (tag_of a ∷ before) ≡ suc (count (tag_of b) before) =
        rw e (ground arith) in
      let same_count : count (tag_of a) before ≡ count (tag_of b) before =
        ap (λ t. count t before) same in
      let other : is_nth (some (suc (count (tag_of b) fb))) (suc (count (tag_of a) before))
          ≡ false =
        ground (arith, counted, same_count, h) in
      rw other (
        and_false (is_tag (tag_of b) a) (is_id (or_null b.id) a.id)
          (every_of (contains a.classes) (named_classes b)))
]

pub descend-found :
    {f : Forest} (before : List Text) (p : Place f)
    → IsReferablePath p
    → descend (printed (first_of before p).0 (first_of before p).1) (rest_of p) before f ≡ some p
unfolding descend
descend-found {f = nil} before p w = elim p [ ]
descend-found {f = node a inner others} before this w = rw (matches-printed before a, descend) refl
descend-found {f = node a inner others} before (inside p) (w, ws) =
    rw
      (
        matches-printed before a,
        parse-segment (first_of [] p).0 (first_of [] p).1 (first-IsReferable [] p ws),
        descend-found [] p ws,
        descend,
      )
      refl
descend-found {f = node a inner others} before (next p) w =
    rw
      (
        matches-earlier before (first_of (tag_of a ∷ before) p).0 a
            (first_of (tag_of a ∷ before) p).1 (count-le _ (tag_of a ∷ before) p),
        descend-found (tag_of a ∷ before) p w,
        descend,
      )
      refl

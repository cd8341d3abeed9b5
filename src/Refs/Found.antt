-- ===== src/Refs/Found.antt =====
-- The element of a reference is found again.
use ar_automation_agent.Prelude.{◌≡◌, refl, true, some, List, [], ◌∷◌, All}
use ar_automation_agent.Prelude.Text.{Text, codes, text_eq, lower, split, join}
use ar_automation_agent.Refs.Document.{
  Attrs, Forest, Element, body, below, is_tag, document_ref_parts, document_ref_for_element,
}
use ar_automation_agent.Refs.Query.{
  element_matches_manual_ref_segment, parse_manual_edit_ref_segment, segment_of, find_id,
  without_id, prefix, nth_match, nth_here, from_body, query_parts, query_manual_edit_ref,
}
use ar_automation_agent.Refs.Segments.{parse-segment}
use ar_automation_agent.Refs.Way.{
  IsReferablePath, descend-found, first-IsReferable, first_of, rest_of, segment_at, walk-parts,
}
use ar_automation_agent.Refs.Parts.{IsPart, body-IsPart, parts-read, rest-IsPart, segment-IsPart}

abbrev pub IsReferableElement : {f : Forest} → Element f → Type 0
IsReferableElement body = Unit
IsReferableElement (below p) = IsReferablePath p

query-body :
    (b : Attrs) (f : Forest) (ps : List Text)
    → is_tag (codes "body") b ≡ true
    → query_parts (codes "body" ∷ ps) b f ≡ from_body ps f
unfolding query_parts parse_manual_edit_ref_segment segment_of nth_match nth_here find_id without_id
    prefix element_matches_manual_ref_segment split text_eq lower
query-body b f ps h = rw (h, query_parts) refl

-- The reference of an element leads back to it, in a document whose body is `b`: with plain names on
-- the way from the body, no other element is found, whatever stands beside the way.
pub query-document_ref :
    (b : Attrs) (f : Forest) (e : Element f)
    → is_tag (codes "body") b ≡ true
    → IsReferableElement e
    → query_manual_edit_ref (document_ref_for_element e) b f ≡ some e
unfolding query_manual_edit_ref document_ref_for_element document_ref_parts join from_body
query-document_ref b f body h w =
    rw (parts-read (codes "body") [] (body-IsPart, tt)) (query-body b f [] h)
query-document_ref b f (below p) h w =
    let ps = segment_at [] p ∷ rest_of p in
    let parts : All IsPart ps = (segment-IsPart _ _ (first-IsReferable [] p w), rest-IsPart p w) in
    rw (walk-parts [] p w) (
      rw
        (
          parts-read (codes "body") ps (body-IsPart, parts),
          query-body b f ps h,
          parse-segment (first_of [] p).0 (first_of [] p).1 (first-IsReferable [] p w),
          descend-found [] p w,
          from_body,
        )
        refl)

-- ===== src/Refs/Tests.antt =====
-- References at concrete elements.
use ar_automation_agent.Prelude.{◌≡◌, refl, none, some, [], ◌∷◌}
use ar_automation_agent.Prelude.Text.{codes, split, trim, text_eq, lower, starts_with, trim_start}
use ar_automation_agent.Refs.Document.{
  Attrs, Forest, nil, node, this, inside, next, Element, below, document_ref_for_element,
  document_ref_parts, walk_up, document_ref_segment, document_ref_id_suffix,
  document_ref_class_suffix, normalize_document_ref_token, joined, number_text, emit, count,
  index_among_same_tag,
}
use ar_automation_agent.Refs.Segments.{IsReferable}
use ar_automation_agent.Refs.Found.{query-document_ref}
use ar_automation_agent.Refs.Query.{
  query_manual_edit_ref, query_parts, from_body, descend, element_matches_manual_ref_segment,
  parse_manual_edit_ref_segment, segment_of, without_id, find_id, prefix, nth_match, nth_here,
  after, nth_close,
}

abbrev body_attrs : Attrs
body_attrs = record { tag_name = codes "BODY"; id = []; classes = [] }

abbrev main : Attrs
main = record {
  tag_name = codes "MAIN";
  id = codes "top";
  classes = codes "impeccable-on" ∷ codes "md:flex" ∷ codes "w-1/2" ∷ codes "p-1.5" ∷ [];
}

abbrev plain : Attrs
plain = record { tag_name = codes "P"; id = []; classes = [] }

abbrev padded : Attrs
padded = record { tag_name = codes "P"; id = []; classes = codes "p-1.5" ∷ [] }

-- main holds three paragraphs, and stands behind another one.
abbrev page : Forest
page = node plain nil (node main (node plain nil (node plain nil (node padded nil nil))) nil)

abbrev second : Element page
second = below (next (inside (next this)))

abbrev third : Element page
third = below (next (inside (next (next this))))

ref_of_second :
    document_ref_for_element second
    ≡ some (codes "body>main#top.md:flex.w-1/2:nth-of-type(1)>p:nth-of-type(2)")
unfolding document_ref_for_element document_ref_parts walk_up document_ref_segment
    document_ref_id_suffix document_ref_class_suffix normalize_document_ref_token joined number_text
    emit count index_among_same_tag lower starts_with
ref_of_second = refl

found_second :
    query_manual_edit_ref
      (some (codes "body>main#top.md:flex.w-1/2:nth-of-type(1)>p:nth-of-type(2)"))
      body_attrs
      page
    ≡ some second
unfolding query_manual_edit_ref query_parts from_body descend element_matches_manual_ref_segment
    parse_manual_edit_ref_segment segment_of without_id find_id prefix nth_match nth_here after
    nth_close split trim trim_start text_eq lower index_among_same_tag count
found_second = refl

-- A class with a dot in it is cut in two, and its element is not found again.
ref_of_third :
    document_ref_for_element third
    ≡ some (codes "body>main#top.md:flex.w-1/2:nth-of-type(1)>p.p-1.5:nth-of-type(3)")
unfolding document_ref_for_element document_ref_parts walk_up document_ref_segment
    document_ref_id_suffix document_ref_class_suffix normalize_document_ref_token joined number_text
    emit count index_among_same_tag lower starts_with
ref_of_third = refl

lost_third :
    query_manual_edit_ref
      (some (codes "body>main#top.md:flex.w-1/2:nth-of-type(1)>p.p-1.5:nth-of-type(3)"))
      body_attrs
      page
    ≡ none
unfolding query_manual_edit_ref query_parts from_body descend element_matches_manual_ref_segment
    parse_manual_edit_ref_segment segment_of without_id find_id prefix nth_match nth_here after
    nth_close split trim trim_start text_eq lower index_among_same_tag count
lost_third = refl

main-IsReferable : IsReferable main
unfolding lower starts_with text_eq
main-IsReferable = record {
  tag = (refl, (refl, (refl, (refl, tt))));
  has_tag = refl;
  id = (refl, (refl, (refl, tt)));
  classes = (
    (refl, (refl, (refl, (refl, (refl, (refl, (refl, tt))))))),
    ((refl, (refl, (refl, (refl, (refl, tt))))), tt),
  );
  not_html = refl;
  not_body = refl;
}

plain-IsReferable : IsReferable plain
unfolding lower text_eq
plain-IsReferable = record {
  tag = (refl, tt);
  has_tag = refl;
  id = tt;
  classes = tt;
  not_html = refl;
  not_body = refl;
}

query-document_ref_example :
    query_manual_edit_ref (document_ref_for_element second) body_attrs page ≡ some second
unfolding text_eq lower
query-document_ref_example =
    query-document_ref body_attrs page second refl (main-IsReferable, plain-IsReferable)

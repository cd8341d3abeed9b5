-- ===== src/Ignores/Candidates.antt =====
-- Which paths a page is known by, and which root they share.
use ar_automation_agent.Prelude.{
  ◌≡◌, ◌≢◌, ◌↔◌, refl, sym, ap, subst, true, false, Option, List, [], ◌∷◌, ◌++◌, map, All, length,
  arith, if_cases,
}
use ar_automation_agent.Prelude.Text.{Text, text_eq, eq_of_text_eq, text_eq_refl}
use ar_automation_agent.Ignores.Page.{
  segments, suffixes, strings, as_array, known_pages, common_prefix, common_of, common_root,
  identity, page_path, page_candidates, add_all,
}

abbrev pub IsPrefix : List Text → List Text → Type 0
IsPrefix c p = (t : List Text) × (p ≡ c ++ t)

-- Of two paths, the common prefix has exactly the prefixes of both.
prefix_common_iff :
    (d a b : List Text) → IsPrefix d (common_prefix a b) ↔ (IsPrefix d a × IsPrefix d b)
prefix_common_iff [] a b = (λ h. ((a, refl), (b, refl)), λ h. (common_prefix a b, refl))
prefix_common_iff (x ∷ d) [] b = (λ (t, e). cc, λ ((t, e), _). cc)
prefix_common_iff (x ∷ d) (y ∷ a) [] = (λ (t, e). cc, λ (_, (t, e)). cc)
prefix_common_iff (x ∷ d) (y ∷ a) (z ∷ b) =
    if_cases (λ c. IsPrefix (x ∷ d) c ↔ (IsPrefix (x ∷ d) (y ∷ a) × IsPrefix (x ∷ d) (z ∷ b)))
      (text_eq y z) (y ∷ common_prefix a b) []
      (λ h.
        let same : y ≡ z = eq_of_text_eq y z h in
        (
          λ (t, e).
              let head : y ≡ x = cc in
              let tail : common_prefix a b ≡ d ++ t = cc in
              let ((t1, e1), (t2, e2)) = (prefix_common_iff d a b).0 (t, tail) in
              ((t1, cc), (t2, cc)),
          λ ((t1, e1), (t2, e2)).
              let head : y ≡ x = cc in
              let left : a ≡ d ++ t1 = cc in
              let right : b ≡ d ++ t2 = cc in
              let (t, e) = (prefix_common_iff d a b).1 ((t1, left), (t2, right)) in (t, cc),
        ))
      (λ h. (
        λ (t, e). cc,
        λ ((t1, e1), (t2, e2)).
            let same : y ≡ z = cc in
            let twice : text_eq y y ≡ false = subst (λ w. text_eq y w ≡ false) (sym same) h in
            let once : text_eq y y ≡ true = text_eq_refl y in cc,
      ))

common_of_iff :
    (d c : List Text) (ps : List (List Text))
    → IsPrefix d (common_of c ps) ↔ (IsPrefix d c × All (IsPrefix d) ps)
common_of_iff d c [] = (λ h. (h, tt), λ h. h.0)
common_of_iff d c (p ∷ ps) =
    let rest = common_of_iff d (common_prefix c p) ps in
    let here = prefix_common_iff d c p in
    (
      λ h. let (k, all) = rest.0 h in let (i, j) = here.0 k in (i, (j, all)),
      λ (i, (j, all)). rest.1 (here.1 (i, j), all),
    )

-- The common root of some paths is their deepest: a path lies above it exactly if it lies above
-- each of them.
pub common_root_iff :
    (d p : List Text) (ps : List (List Text))
    → IsPrefix d (common_root (p ∷ ps)) ↔ All (IsPrefix d) (p ∷ ps)
unfolding common_root
common_root_iff d p ps = common_of_iff d p ps

identity-empty :
    (known : List Text) (prefixes : List (List Text)) (path : Text)
    → length known ≢ 1
    → common_root prefixes ≡ []
    → identity known prefixes path ≡ []
identity-empty [] prefixes path many apart = rw apart
identity-empty (k ∷ []) prefixes path many apart = ground arith
identity-empty (k ∷ l ∷ ks) prefixes path many apart = rw apart

-- Where the roots share nothing and no one page is known, the page is known by its address only.
pub page_candidates-disjoint :
    (decode : Text → Option Text) (pathname : Text) (roots pages : Option (List (Option Text)))
    → length (known_pages (page_path decode pathname) pages) ≢ 1
    → common_root (map segments (strings (as_array roots))) ≡ []
    → page_candidates decode pathname roots pages
      ≡ add_all (suffixes (page_path decode pathname)) []
unfolding page_candidates
page_candidates-disjoint decode pathname roots pages many apart =
    ap (λ ts. add_all ts (add_all (suffixes (page_path decode pathname)) []))
      (identity-empty (known_pages (page_path decode pathname) pages) _ _ many apart)

-- A page that is known by one file takes the paths of that file, and the roots are not asked.
pub page_candidates-known :
    (decode : Text → Option Text) (pathname file : Text) (roots pages : Option (List (Option Text)))
    → known_pages (page_path decode pathname) pages ≡ file ∷ []
    → page_candidates decode pathname roots pages
      ≡ add_all (suffixes file) (add_all (suffixes (page_path decode pathname)) [])
unfolding page_candidates
page_candidates-known decode pathname file roots pages one =
    ap
      (λ ks.
        add_all (identity ks (map segments (strings (as_array roots))) (page_path decode pathname))
          (add_all (suffixes (page_path decode pathname)) []))
      one

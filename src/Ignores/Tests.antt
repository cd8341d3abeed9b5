-- ===== src/Ignores/Tests.antt =====
-- Runs of the resolver, and its theorems at concrete inputs.
use ar_automation_agent.Prelude.{
  ◌≡◌, ◌↔◌, refl, true, false, ◌||◌, Option, none, some, List, [], ◌∷◌, ◌++◌, map, keep, All, arith,
}
use ar_automation_agent.Prelude.Text.{
  Text, codes, text_eq, ends_with, split, join, lower, trim, cut_at,
}
use ar_automation_agent.Ignores.Glob.{
  parse_part, parse_parts, next_piece, pieces, glob_to_regex, run_then, matches, glob_matches,
  matches_scope, in_name, in_line,
}
use ar_automation_agent.Ignores.Page.{page_path, segments, suffixes, known_pages, page_candidates}
use ar_automation_agent.Ignores.Resolve.{
  Entry, Config, normalize_ignore_rule, normalize_ignore_value, scope_of, resolve_entry,
  initial_rules, resolve_detect_ignores, entries_of,
}
use ar_automation_agent.Ignores.Fuel.{pieces-enough}
use ar_automation_agent.Ignores.Globs.{glob_matches-star_iff, glob_matches-globstar_iff}
use ar_automation_agent.Ignores.Named.{is_in, names_rule}
use ar_automation_agent.Ignores.Waivers.{
  waives, waives_value, waiver_of, objects, resolve_detect_ignores-rules,
  resolve_detect_ignores-values,
}

-- A choice with a star at the front of a part throws, and the glob matches nothing.
choice_throws : glob_to_regex (codes "{*.html,*.css}") ≡ none
unfolding glob_to_regex pieces next_piece cut_at split parse_parts parse_part
choice_throws = refl

choice_matches : glob_matches (codes "src/{a,b}/?.html") (codes "src/b/x.html") ≡ true
unfolding glob_matches glob_to_regex pieces next_piece cut_at split parse_parts parse_part matches
    run_then
choice_matches = refl

pieces-enough_example : pieces 9 (codes "{a,b}*") ≡ glob_to_regex (codes "{a,b}*")
pieces-enough_example = pieces-enough 9 (codes "{a,b}*") (omega arith)

glob_matches-star_iff_example :
    (glob_matches (codes "a" ++ 42 ∷ codes "b") (codes "a/b") ≡ true)
    ↔ ((m : Text) × All (λ c. in_name c ≡ true) m × (codes "a/b" ≡ codes "a" ++ (m ++ codes "b")))
glob_matches-star_iff_example =
    glob_matches-star_iff (codes "a") (codes "b") (codes "a/b") ((refl, refl, refl), tt)
      ((refl, refl, refl), tt)

-- The name `ab` ends in `b`, too.
glob_matches-globstar_iff_example :
    (glob_matches (42 ∷ 42 ∷ 47 ∷ codes "b") (codes "c/ab") ≡ true)
    ↔ ((m : Text) × All (λ c. in_line c ≡ true) m × (codes "c/ab" ≡ m ++ codes "b"))
glob_matches-globstar_iff_example =
    glob_matches-globstar_iff (codes "b") (codes "c/ab") ((refl, refl, refl), tt)

abbrev nested : List (List Text)
nested = (codes "site" ∷ codes "blog" ∷ []) ∷ (codes "site" ∷ []) ∷ []

abbrev decode : Text → Option Text
decode t = some t

abbrev disjoint : Option (List (Option Text))
disjoint = some (some (codes "src/") ∷ none ∷ some (codes "public/") ∷ [])

abbrev served : Option (List (Option Text))
served = some (some (codes "public/a.html") ∷ some (codes "public/b.html") ∷ [])

abbrev wildcard : Entry
wildcard = record {
  rule = some (codes "Contrast");
  value = some (codes "*");
  file = some (codes "public/*.html");
  files = none;
}

abbrev unscoped : Entry
unscoped = record {
  rule = some (codes "spacing");
  value = some (codes "*");
  file = none;
  files = none;
}

abbrev font : Entry
font = record {
  rule = some (codes "font");
  value = some (codes "'Open+Sans'");
  file = none;
  files = none;
}

abbrev config : Config
config = record {
  roots = none;
  page_files = served;
  ignore_files = some (some (codes "news/*") ∷ []);
  ignore_rules = some (some (codes " Kerning") ∷ none ∷ []);
  ignore_values = some (some wildcard ∷ none ∷ some unscoped ∷ some font ∷ []);
}

scans : (resolve_detect_ignores decode config (codes "/a.html")).skip_scan ≡ false
unfolding resolve_detect_ignores matches_scope glob_matches glob_to_regex pieces next_piece matches
    run_then page_candidates page_path known_pages suffixes segments split join text_eq ends_with
    resolve_entry normalize_ignore_rule normalize_ignore_value scope_of initial_rules trim lower
    cut_at
scans = refl

resolves :
    (resolve_detect_ignores decode config (codes "/a.html")).disabled_rules
    ≡ codes "kerning" ∷ codes "contrast" ∷ []
unfolding resolve_detect_ignores matches_scope glob_matches glob_to_regex pieces next_piece matches
    run_then page_candidates page_path known_pages suffixes segments split join text_eq ends_with
    resolve_entry normalize_ignore_rule normalize_ignore_value scope_of initial_rules trim lower
    cut_at
resolves = refl

resolve_detect_ignores-rules_example :
    is_in (codes "kerning") (resolve_detect_ignores decode config (codes "/a.html")).disabled_rules
    ≡ (names_rule (codes "kerning") config.ignore_rules
        || waives
            (page_candidates decode (codes "/a.html") none served)
            (codes "kerning")
            config.ignore_values)
resolve_detect_ignores-rules_example =
    resolve_detect_ignores-rules decode config (codes "/a.html") (codes "kerning") scans

resolve_detect_ignores-values_example :
    (resolve_detect_ignores decode config (codes "/a.html")).disabled_values
    ≡ map waiver_of (
        keep
          (waives_value (page_candidates decode (codes "/a.html") none served))
          (objects (entries_of config.ignore_values)))
resolve_detect_ignores-values_example =
    resolve_detect_ignores-values decode config (codes "/a.html") scans

-- ===== src/Ignores/Waivers.antt =====
-- What the resolver waives, said of the configuration as a whole.
use mathlib.Core.List.{append-nil, append_assoc}
use ar_automation_agent.Prelude.{
  ◌≡◌, refl, sym, ap, ◌∙◌, Bool, true, false, not, ◌&&◌, ◌||◌, Option, none, some, List, [], ◌∷◌,
  ◌++◌, map, keep, some_of, if_cases, if◌then◌else◌,
}
use ar_automation_agent.Prelude.Text.{Text, text_eq, is_set}
use ar_automation_agent.Ignores.Glob.{matches_scope}
use ar_automation_agent.Ignores.Page.{page_candidates}
use ar_automation_agent.Ignores.Named.{
  is_in, or_assoc, or_false, names_rule, is_in-add_new, is_in-initial_rules,
}
use ar_automation_agent.Ignores.Resolve.{
  Entry, Config, Waiver, Ignores, normalize_ignore_rule, normalize_ignore_value, globs_of, scope_of,
  is_wildcard, is_scoped, resolve_entry, resolve_entries, initial_rules, entries_of, skipped,
  resolve_detect_ignores,
}

-- A wildcard entry that waives the rule `x` on the page.
abbrev pub waives_rule : List Text → Text → Entry → Bool
waives_rule candidates x e =
    let rule = normalize_ignore_rule e.rule in
    let value = normalize_ignore_value e.value in
    is_set rule
    && (is_set value
        && (is_wildcard value
            && (is_scoped (scope_of e)
                && (matches_scope (scope_of e) candidates && text_eq x rule))))

-- An item of `ignoreValues` that waives the rule `x`: one that is no object does not.
abbrev pub item_waives : List Text → Text → Option Entry → Bool
item_waives candidates x none = false
item_waives candidates x (some e) = waives_rule candidates x e

abbrev pub waives : List Text → Text → Option (List (Option Entry)) → Bool
waives candidates x none = false
waives candidates x (some items) = some_of (item_waives candidates x) items

-- An entry whose value is waived on the page.
abbrev pub waives_value : List Text → Entry → Bool
waives_value candidates e =
    let value = normalize_ignore_value e.value in
    is_set (normalize_ignore_rule e.rule)
    && (is_set value
        && (not (is_wildcard value)
            && (not (is_scoped (scope_of e)) || matches_scope (scope_of e) candidates)))

abbrev pub waiver_of : Entry → Waiver
waiver_of e = record { rule = normalize_ignore_rule e.rule; value = normalize_ignore_value e.value }

abbrev pub objects : List (Option Entry) → List Entry
objects [] = []
objects (none ∷ es) = objects es
objects (some e ∷ es) = e ∷ objects es

-- The result before the loop.
abbrev unresolved : Config → Ignores
unresolved c = record { disabled_rules = initial_rules c; disabled_values = []; skip_scan = false }

-- The branches of a turn, by a test of the result: `a` is the result before it, `b` has one rule
-- more and `c` one value more.
turn_rules :
    (r v w s m q old : Bool) (f : Ignores → Bool) (a b c : Ignores)
    → f a ≡ old
    → f b ≡ (old || q)
    → f c ≡ old
    → f (
        if not r || not v
        then a
        else if w
        then (if s && m then b else a)
        else if s && not m
        then a
        else c)
      ≡ (old || (r && (v && (w && (s && (m && q))))))
turn_rules false v w s m q old f a b c fa fb fc = fa ∙ or_false old
turn_rules true false w s m q old f a b c fa fb fc = fa ∙ or_false old
turn_rules true true true false m q old f a b c fa fb fc = fa ∙ or_false old
turn_rules true true true true false q old f a b c fa fb fc = fa ∙ or_false old
turn_rules true true true true true q old f a b c fa fb fc = fb
turn_rules true true false false m q old f a b c fa fb fc = fc ∙ or_false old
turn_rules true true false true false q old f a b c fa fb fc = fa ∙ or_false old
turn_rules true true false true true q old f a b c fa fb fc = fc ∙ or_false old

turn_values :
    (r v w s m : Bool) (old new : List Waiver) (f : Ignores → List Waiver) (a b c : Ignores)
    → f a ≡ old
    → f b ≡ old
    → f c ≡ old ++ new
    → f (
        if not r || not v
        then a
        else if w
        then (if s && m then b else a)
        else if s && not m
        then a
        else c)
      ≡ old ++ (if r && (v && (not w && (not s || m))) then new else [])
turn_values false v w s m old new f a b c fa fb fc = fa ∙ sym (append-nil old)
turn_values true false w s m old new f a b c fa fb fc = fa ∙ sym (append-nil old)
turn_values true true true false m old new f a b c fa fb fc = fa ∙ sym (append-nil old)
turn_values true true true true false old new f a b c fa fb fc = fa ∙ sym (append-nil old)
turn_values true true true true true old new f a b c fa fb fc = fb ∙ sym (append-nil old)
turn_values true true false false m old new f a b c fa fb fc = fc
turn_values true true false true false old new f a b c fa fb fc = fa ∙ sym (append-nil old)
turn_values true true false true true old new f a b c fa fb fc = fc

resolve_entry-rules :
    (candidates : List Text) (e : Entry) (x : Text) (r : Ignores)
    → is_in x (resolve_entry candidates e r).disabled_rules
      ≡ (is_in x r.disabled_rules || waives_rule candidates x e)
unfolding resolve_entry
resolve_entry-rules candidates e x r =
    turn_rules (is_set (normalize_ignore_rule e.rule)) (is_set (normalize_ignore_value e.value))
      (is_wildcard (normalize_ignore_value e.value)) (is_scoped (scope_of e))
      (matches_scope (scope_of e) candidates) (text_eq x (normalize_ignore_rule e.rule))
      (is_in x r.disabled_rules) (λ (i : Ignores). is_in x i.disabled_rules) r _ _ refl
      (is_in-add_new x (normalize_ignore_rule e.rule) r.disabled_rules) refl

resolve_entry-values :
    (candidates : List Text) (e : Entry) (r : Ignores)
    → (resolve_entry candidates e r).disabled_values
      ≡ r.disabled_values ++ (if waives_value candidates e then waiver_of e ∷ [] else [])
unfolding resolve_entry
resolve_entry-values candidates e r =
    turn_values (is_set (normalize_ignore_rule e.rule)) (is_set (normalize_ignore_value e.value))
      (is_wildcard (normalize_ignore_value e.value)) (is_scoped (scope_of e))
      (matches_scope (scope_of e) candidates) r.disabled_values (waiver_of e ∷ [])
      (λ (i : Ignores). i.disabled_values) r _ _ refl refl refl

resolve_entries-rules :
    (candidates : List Text) (x : Text) (es : List (Option Entry)) (r : Ignores)
    → is_in x (resolve_entries candidates es r).disabled_rules
      ≡ (is_in x r.disabled_rules || some_of (item_waives candidates x) es)
resolve_entries-rules candidates x [] r = or_false (is_in x r.disabled_rules)
resolve_entries-rules candidates x (none ∷ es) r = resolve_entries-rules candidates x es r
resolve_entries-rules candidates x (some e ∷ es) r =
    resolve_entries-rules candidates x es (resolve_entry candidates e r)
    ∙ ap (λ b. b || some_of (item_waives candidates x) es) (resolve_entry-rules candidates e x r)
    ∙ sym (or_assoc (is_in x r.disabled_rules) (waives_rule candidates x e) _)

resolved-rules :
    (candidates : List Text) (x : Text) (c : Config)
    → is_in x
        (resolve_entries candidates (entries_of c.ignore_values) (unresolved c)).disabled_rules
      ≡ (names_rule x c.ignore_rules || waives candidates x c.ignore_values)
resolved-rules candidates x c =
    resolve_entries-rules candidates x (entries_of c.ignore_values) (unresolved c)
    ∙ ap (λ b. b || some_of (item_waives candidates x) (entries_of c.ignore_values))
        (is_in-initial_rules x c)
    ∙ ap (λ b. names_rule x c.ignore_rules || b) (waived c.ignore_values)
  where
    waived :
        (items : Option (List (Option Entry)))
        → some_of (item_waives candidates x) (entries_of items) ≡ waives candidates x items
    waived none = refl
    waived (some es) = refl

resolve_entries-values :
    (candidates : List Text) (es : List (Option Entry)) (r : Ignores)
    → (resolve_entries candidates es r).disabled_values
      ≡ r.disabled_values ++ map waiver_of (keep (waives_value candidates) (objects es))
resolve_entries-values candidates [] r = sym (append-nil r.disabled_values)
resolve_entries-values candidates (none ∷ es) r = resolve_entries-values candidates es r
resolve_entries-values candidates (some e ∷ es) r =
    resolve_entries-values candidates es (resolve_entry candidates e r)
    ∙ ap (λ vs. vs ++ map waiver_of (keep (waives_value candidates) (objects es)))
        (resolve_entry-values candidates e r)
    ∙ kept (waives_value candidates e)
  where
    kept :
        (b : Bool)
        → r.disabled_values
            ++ (if b then waiver_of e ∷ [] else [])
            ++ map waiver_of (keep (waives_value candidates) (objects es))
          ≡ r.disabled_values
            ++ map waiver_of (
                if b
                then e ∷ keep (waives_value candidates) (objects es)
                else keep (waives_value candidates) (objects es))
    kept true = append_assoc r.disabled_values (waiver_of e ∷ []) _
    kept false =
        ap (λ z. z ++ map waiver_of (keep (waives_value candidates) (objects es)))
          (append-nil r.disabled_values)

-- Unless the scan is skipped, a rule is left out exactly if a string of `ignoreRules` comes to it,
-- trimmed and in lower case, or a wildcard entry has it whose globs name the page: one without globs
-- counts for nothing, and neither do the order of the entries and what is no string or no object.
pub resolve_detect_ignores-rules :
    (decode : Text → Option Text) (c : Config) (pathname x : Text)
    → (resolve_detect_ignores decode c pathname).skip_scan ≡ false
    → is_in x (resolve_detect_ignores decode c pathname).disabled_rules ≡ (
        names_rule x c.ignore_rules
        || waives (page_candidates decode pathname c.roots c.page_files) x c.ignore_values)
unfolding resolve_detect_ignores
resolve_detect_ignores-rules decode c pathname x =
    let candidates = page_candidates decode pathname c.roots c.page_files in
    if_cases
      (λ (i : Ignores).
        i.skip_scan ≡ false
        → is_in x i.disabled_rules
          ≡ (names_rule x c.ignore_rules || waives candidates x c.ignore_values))
      (is_scoped (globs_of c.ignore_files) && matches_scope (globs_of c.ignore_files) candidates)
      skipped _ (λ _ h. cc) (λ _ _. resolved-rules candidates x c)

-- Unless the scan is skipped, the values that are left out are those of the entries without a
-- wildcard whose globs name the page, or that have no globs, one for one and in their order.
pub resolve_detect_ignores-values :
    (decode : Text → Option Text) (c : Config) (pathname : Text)
    → (resolve_detect_ignores decode c pathname).skip_scan ≡ false
    → (resolve_detect_ignores decode c pathname).disabled_values
      ≡ map waiver_of (
          keep
            (waives_value (page_candidates decode pathname c.roots c.page_files))
            (objects (entries_of c.ignore_values)))
unfolding resolve_detect_ignores
resolve_detect_ignores-values decode c pathname =
    let candidates = page_candidates decode pathname c.roots c.page_files in
    let entries = entries_of c.ignore_values in
    if_cases
      (λ (i : Ignores).
        i.skip_scan ≡ false
        → i.disabled_values ≡ map waiver_of (keep (waives_value candidates) (objects entries)))
      (is_scoped (globs_of c.ignore_files) && matches_scope (globs_of c.ignore_files) candidates)
      skipped _ (λ _ h. cc) (λ _ _. resolve_entries-values candidates entries _)

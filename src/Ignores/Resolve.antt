-- ===== src/Ignores/Resolve.antt =====
-- `resolveDetectIgnores` of live-browser-ignores.js.
use mathlib.Core.List.{reverse}
use ar_automation_agent.Prelude.{
  ℕ, Bool, true, false, not, ◌&&◌, ◌||◌, Option, none, some, List, [], ◌∷◌, ◌++◌, map, keep, ◌==◌,
  if◌then◌else◌,
}
use ar_automation_agent.Prelude.Text.{Text, codes, text_eq, is_set, trim, lower, is_space}
use ar_automation_agent.Ignores.Glob.{matches_scope}
use ar_automation_agent.Ignores.Page.{page_candidates, as_array, strings, add_all, add_new}

-- An entry of `ignoreValues` that is an object. `rule` and `value` are texts or are not there.
pub record Entry : Type 0 where
  pub rule : Option Text
  pub value : Option Text
  pub file : Option Text
  pub files : Option (List (Option Text))

-- The configuration: none is a field that is no array, or an item that is no string or no object.
pub record Config : Type 0 where
  pub roots : Option (List (Option Text))
  pub page_files : Option (List (Option Text))
  pub ignore_files : Option (List (Option Text))
  pub ignore_rules : Option (List (Option Text))
  pub ignore_values : Option (List (Option Entry))

pub record Waiver : Type 0 where
  pub rule : Text
  pub value : Text

pub record Ignores : Type 0 where
  pub disabled_rules : List Text
  pub disabled_values : List Waiver
  pub skip_scan : Bool

abbrev pub text_or_empty : Option Text → Text
text_or_empty none = []
text_or_empty (some s) = s

unfoldable pub normalize_ignore_rule : Option Text → Text
normalize_ignore_rule r = lower (trim (text_or_empty r))

abbrev pub is_quote : ℕ → Bool
is_quote c = c == 34 || c == 39

abbrev pub unquote_start : Text → Text
unquote_start [] = []
unquote_start (c ∷ cs) = if is_quote c then cs else c ∷ cs

-- `replace(/^["']|["']$/g, '')`
abbrev pub unquote : Text → Text
unquote s = reverse (unquote_start (reverse (unquote_start s)))

abbrev pub plus_to_space : Text → Text
plus_to_space [] = []
plus_to_space (c ∷ cs) = (if c == 43 then 32 else c) ∷ plus_to_space cs

-- `replace(/\s+/g, ' ')`; the flag says that a space was just put down.
abbrev pub collapse : Bool → Text → Text
collapse behind [] = []
collapse behind (c ∷ cs) =
    let rest = collapse (is_space c) cs in
    if is_space c then (if behind then rest else 32 ∷ rest) else c ∷ rest

unfoldable pub normalize_ignore_value : Option Text → Text
normalize_ignore_value v = lower (collapse false (plus_to_space (unquote (trim (text_or_empty v)))))

-- `typeof glob === 'string' && glob.trim()`
abbrev pub globs_of : Option (List (Option Text)) → List Text
globs_of es = keep (λ g. is_set (trim g)) (strings (as_array es))

abbrev pub own_glob : Option Text → List Text
own_glob none = []
own_glob (some f) = if is_set (trim f) then trim f ∷ [] else []

unfoldable pub scope_of : Entry → List Text
scope_of e = own_glob e.file ++ globs_of e.files

abbrev pub is_wildcard : Text → Bool
is_wildcard v = text_eq v (codes "*")

abbrev pub is_scoped : List Text → Bool
is_scoped [] = false
is_scoped (g ∷ gs) = true

-- One turn of the loop over `ignoreValues`.
unfoldable pub resolve_entry : List Text → Entry → Ignores → Ignores
resolve_entry candidates e r =
    let rule = normalize_ignore_rule e.rule in
    let value = normalize_ignore_value e.value in
    let files = scope_of e in
    if not (is_set rule) || not (is_set value)
    then r
    else if is_wildcard value
    then if is_scoped files && matches_scope files candidates
      then record r { disabled_rules = add_new rule r.disabled_rules }
      else r
    else if is_scoped files && not (matches_scope files candidates)
    then r
    else record r {
      disabled_values = r.disabled_values ++ record { rule = rule; value = value } ∷ [];
    }

abbrev pub resolve_entries : List Text → List (Option Entry) → Ignores → Ignores
resolve_entries candidates [] r = r
resolve_entries candidates (none ∷ es) r = resolve_entries candidates es r
resolve_entries candidates (some e ∷ es) r =
    resolve_entries candidates es (resolve_entry candidates e r)

unfoldable pub initial_rules : Config → List Text
initial_rules c =
    add_all
      (keep is_set (map (λ r. normalize_ignore_rule (some r)) (strings (as_array c.ignore_rules))))
      []

abbrev pub entries_of : Option (List (Option Entry)) → List (Option Entry)
entries_of none = []
entries_of (some es) = es

abbrev pub skipped : Ignores
skipped = record { disabled_rules = []; disabled_values = []; skip_scan = true }

unfoldable pub resolve_detect_ignores : (Text → Option Text) → Config → Text → Ignores
resolve_detect_ignores decode c pathname =
    let candidates = page_candidates decode pathname c.roots c.page_files in
    let waived = globs_of c.ignore_files in
    if is_scoped waived && matches_scope waived candidates
    then skipped
    else resolve_entries candidates (entries_of c.ignore_values)
        (record { disabled_rules = initial_rules c; disabled_values = []; skip_scan = false })

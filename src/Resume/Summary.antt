-- ===== src/Resume/Summary.antt =====
-- What the page stores of a session and what the server says of one: the tests on both.
use ar_automation_agent.Prelude.{
  ℕ, zero, suc, Bool, true, false, not, ◌&&◌, ◌||◌, Option, none, some, List, [], ◌∷◌, ltb, ◌==◌,
  if◌then◌else◌, find_first, some_of,
}
use ar_automation_agent.Prelude.Int.{ℤ}
use ar_automation_agent.Prelude.Text.{Text, codes, text_eq, is_set, trim}

-- The fields of both kinds, an object of JavaScript each; a field that is not there is none. Counts
-- are natural numbers. Snapshots and parameter values are only handed on, as numbers that name them.
pub record Session : Type 0 where
  pub id : Option Text
  pub state : Option Text
  pub phase : Option Text
  pub page_url : Option Text
  pub app_root : Option Text
  pub file : Option Text
  pub source_file : Option Text
  pub preview_file : Option Text
  pub preview_mode : Option Text
  pub action : Option Text
  pub count : Option ℕ
  pub expected : Option ℕ
  pub arrived : Option ℕ
  pub visible : Option ℕ
  pub expected_variants : Option ℕ
  pub arrived_variants : Option ℕ
  pub visible_variant : Option ℕ
  pub param_values : Option ℕ
  pub parameter_state : Option Text
  pub generation_phase : Option Text
  pub insert_placeholder : Option ℕ
  pub picked_anchor : Option ℕ
  pub picked_anchor_viewport_top : Option ℤ
  pub generation_completed : Bool
  pub generation_canceled : Bool

-- `!!s` and `a || b` of texts that may be missing.
abbrev pub has : Option Text → Bool
has none = false
has (some s) = is_set s

abbrev pub or_else : Option Text → Option Text → Option Text
or_else a b = if has a then a else b

-- `Number(v) || 0`.
abbrev pub number : Option ℕ → ℕ
number none = 0
number (some n) = n

-- `a || b` of numbers.
abbrev pub or_number : ℕ → ℕ → ℕ
or_number zero b = b
or_number (suc a) b = suc a

abbrev pub text_of : Option Text → Text
text_of none = []
text_of (some s) = s

abbrev pub one_of : List Text → Text → Bool
one_of ts t = some_of (λ s. text_eq s t) ts

unfoldable pub is_terminal_session_summary : Session → Bool
is_terminal_session_summary s =
    one_of
      (codes "completed"
        ∷ codes "discarded"
        ∷ codes "discard_requested"
        ∷ codes "accept_requested"
        ∷ [])
      (text_of s.phase)

-- The phases in which a user compares variants.
unfoldable pub is_adoptable_session_phase : Session → Bool
is_adoptable_session_phase s =
    one_of
      (codes "generate_requested"
        ∷ codes "variants_ready"
        ∷ codes "generating"
        ∷ codes "cycling"
        ∷ [])
      (text_of s.phase)

-- A value below 1 or above a positive count is none of the variants.
unfoldable pub clamp_variant_index : Option ℕ → ℕ → ℕ
clamp_variant_index none count = 0
clamp_variant_index (some n) count =
    if ltb n 1 then 0 else if ltb 0 count && ltb count n then 0 else n

-- Backslashes become slashes.
abbrev pub slashed : Text → Text
slashed [] = []
slashed (c ∷ cs) = (if c == 92 then 47 else c) ∷ slashed cs

unfoldable pub normalize_session_path : Option Text → Option Text
normalize_session_path none = none
normalize_session_path (some s) = let t = trim s in if is_set t then some (slashed t) else none

-- `a` ends with `b`: for `endsWith`.
abbrev pub ends_in : Text → Text → Bool
ends_in [] b = text_eq [] b
ends_in (c ∷ cs) b = text_eq (c ∷ cs) b || ends_in cs b

unfoldable pub is_svelte_component_manifest_path : Option Text → Bool
is_svelte_component_manifest_path p = ends_in (text_of p) (codes "manifest.json")

unfoldable pub is_framework_component_preview_mode : Option Text → Bool
is_framework_component_preview_mode none = false
is_framework_component_preview_mode (some m) = text_eq m (codes "svelte-component")

-- Where the page is. `pathname_of` is the URL parser of the browser over the page's origin, none
-- where it throws.
pub record Location : Type 0 where
  pub pathname : Text
  pub pathname_of : Text → Option Text

-- `value.split(/[?#]/)[0]`
abbrev pub before_query : Text → Text
before_query [] = []
before_query (c ∷ cs) = if c == 63 || c == 35 then [] else c ∷ before_query cs

unfoldable pub normalize_page_path : Location → Option Text → Option Text
normalize_page_path l none = none
normalize_page_path l (some v) =
    if is_set v
    then elim (l.pathname_of v) [
      | some p ↦ some p
      | none ↦ let b = before_query v in if is_set b then some b else none
    ]
    else none

abbrev pub no_path_or : Text → Option Text → Bool
no_path_or here none = true
no_path_or here (some p) = if is_set p then text_eq p here else true

unfoldable pub page_matches_current : Location → Option Text → Bool
page_matches_current l v = no_path_or l.pathname (normalize_page_path l v)

abbrev pub same_id : Option Text → Session → Bool
same_id none s = false
same_id (some i) s = elim s.id [ none ↦ false | some j ↦ text_eq i j ]

-- `activeSessions` is none where the message has no array.
unfoldable pub find_active_session_summary :
    Location → Session → Option (List Session) → Option Session
find_active_session_summary l saved none = none
find_active_session_summary l saved (some sessions) =
    if has saved.id
    then find_first
        (λ s.
          same_id saved.id s
          && page_matches_current l (or_else s.page_url saved.page_url)
          && not (is_terminal_session_summary s))
        sessions
    else none

-- `handled` is `isSessionHandled`.
abbrev pub is_adoptable : Location → (Text → Bool) → Session → Bool
is_adoptable l handled s =
    has s.id
    && not (is_terminal_session_summary s)
    && not (handled (text_of s.id))
    && has s.page_url
    && page_matches_current l s.page_url
    && (has s.preview_file || has s.source_file)
    && ltb 0 (number s.expected_variants)
    && is_adoptable_session_phase s

unfoldable pub find_adoptable_server_session :
    Location → (Text → Bool) → Option (List Session) → Option Session
find_adoptable_server_session l handled none = none
find_adoptable_server_session l handled (some sessions) =
    find_first (is_adoptable l handled) sessions

abbrev pub set_or_none : Option Text → Option Text
set_or_none v = or_else v none

abbrev pub some_or_empty : Option ℕ → Option ℕ
some_or_empty none = some 0
some_or_empty (some v) = some v

-- An object with no fields of parameters is the one that is named 0.
unfoldable pub server_session_as_saved_shape : Session → Session
server_session_as_saved_shape s = record {
  id = s.id;
  state = some (codes "GENERATING");
  phase = none;
  page_url = set_or_none s.page_url;
  app_root = none;
  file = none;
  source_file = set_or_none s.source_file;
  preview_file = set_or_none s.preview_file;
  preview_mode = set_or_none s.preview_mode;
  action = none;
  count = none;
  expected = some (number s.expected_variants);
  arrived = some (number s.arrived_variants);
  visible = some (number s.visible_variant);
  expected_variants = none;
  arrived_variants = none;
  visible_variant = none;
  param_values = some_or_empty s.param_values;
  parameter_state = none;
  generation_phase = none;
  insert_placeholder = none;
  picked_anchor = none;
  picked_anchor_viewport_top = none;
  generation_completed = false;
  generation_canceled = false;
}

-- ===== src/Resume/Meta.antt =====
-- What the page remembers of its session's files and settings.
use ar_automation_agent.Prelude.{ℕ, zero, suc, Bool, false, ◌||◌, Option, none, some, if◌then◌else◌}
use ar_automation_agent.Prelude.Int.{ℤ}
use ar_automation_agent.Prelude.Text.{Text, codes}
use ar_automation_agent.Resume.Summary.{
  Session, has, or_else, text_of, normalize_session_path, is_svelte_component_manifest_path,
  is_framework_component_preview_mode,
}

-- The interaction states of the page.
pub data LiveState : Type 0 where
  idle picking configuring editing generating cycling saving confirmed : LiveState

-- The variables of the script that a restore reads and writes.
pub record Page : Type 0 where
  pub state : LiveState
  pub current_session_id : Option Text
  pub expected_variants : ℕ
  pub arrived_variants : ℕ
  pub visible_variant : ℕ
  pub current_source_file : Option Text
  pub current_preview_file : Option Text
  pub current_preview_mode : Option Text
  pub recovery_waiting_for_anchor : Bool
  pub picked_anchor_snapshot : Option ℕ
  pub picked_anchor_viewport_top : Option ℤ
  pub insert_placeholder_snapshot : Option ℕ
  pub selected_action : Text
  pub selected_count : ℕ
  pub params_current_values : ℕ
  pub parameter_generation_state : Text
  pub generation_phase : Option Text

unfoldable pub reset_session_file_meta : Page → Page
reset_session_file_meta p = record p {
  current_source_file = none;
  current_preview_file = none;
  current_preview_mode = none;
  recovery_waiting_for_anchor = false;
  picked_anchor_snapshot = none;
  picked_anchor_viewport_top = none;
}

abbrev pub svelte : Option Text
svelte = some (codes "svelte-component")

-- The arguments are the normalized paths and the mode.
abbrev pub component_meta : Option Text → Option Text → Option Text → Option Text → Page → Page
component_meta file source preview mode p = record p {
  current_preview_mode = if is_framework_component_preview_mode mode then mode else svelte;
  current_preview_file =
      or_else preview
        (if is_svelte_component_manifest_path file then file else p.current_preview_file);
  current_source_file = or_else source p.current_source_file;
}

abbrev pub source_meta : Option Text → Option Text → Option Text → Option Text → Page → Page
source_meta file source preview mode p = record p {
  current_source_file = or_else (or_else source file) p.current_source_file;
  current_preview_file = or_else preview p.current_preview_file;
  current_preview_mode = or_else mode p.current_preview_mode;
}

unfoldable pub remember_session_file_meta : Session → Page → Page
remember_session_file_meta m p =
    let file = normalize_session_path m.file in
    let source = normalize_session_path m.source_file in
    let preview = normalize_session_path m.preview_file in
    let mode =
      or_else m.preview_mode
        (if is_svelte_component_manifest_path (or_else preview file) then svelte else none) in
    if is_framework_component_preview_mode mode || is_svelte_component_manifest_path file
    then component_meta file source preview mode p
    else source_meta file source preview mode p

-- `if (v) x = v`.
abbrev pub set_text : Option Text → Text → Text
set_text v old = if has v then text_of v else old

abbrev pub set_number : Option ℕ → ℕ → ℕ
set_number none old = old
set_number (some zero) old = old
set_number (some (suc n)) old = suc n

abbrev pub set_value {ℓ} : {A : Type ℓ} → Option A → Option A → Option A
set_value none old = old
set_value (some v) old = some v

abbrev pub set_name : Option ℕ → ℕ → ℕ
set_name none old = old
set_name (some v) old = v

unfoldable pub apply_saved_session_meta : Option Session → Page → Page
apply_saved_session_meta none p = p
apply_saved_session_meta (some s) p =
    let q = remember_session_file_meta s p in
    record q {
      insert_placeholder_snapshot = set_value s.insert_placeholder q.insert_placeholder_snapshot;
      picked_anchor_snapshot = set_value s.picked_anchor q.picked_anchor_snapshot;
      picked_anchor_viewport_top =
          set_value s.picked_anchor_viewport_top q.picked_anchor_viewport_top;
      selected_action = set_text s.action q.selected_action;
      selected_count = set_number s.count q.selected_count;
      current_preview_mode = or_else s.preview_mode q.current_preview_mode;
      params_current_values = set_name s.param_values q.params_current_values;
      parameter_generation_state = set_text s.parameter_state q.parameter_generation_state;
      generation_phase = or_else s.generation_phase q.generation_phase;
    }

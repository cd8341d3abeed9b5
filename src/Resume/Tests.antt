-- ===== src/Resume/Tests.antt =====
-- Runs of the restore, and its theorems at concrete inputs.
use ar_automation_agent.Prelude.{◌≡◌, refl, true, false, none, some, [], ◌∷◌, arith}
use ar_automation_agent.Prelude.Text.{codes, text_eq, trim}
use ar_automation_agent.Resume.Phase.{
  phase_rank, should_advance_phase, advance_phase, advance_phases, advance_phases-IsAtLeast,
  IsAtLeast,
}
use ar_automation_agent.Resume.Summary.{
  Session, Location, find_adoptable_server_session, normalize_page_path, normalize_session_path,
  page_matches_current, is_terminal_session_summary, is_adoptable_session_phase,
  find_active_session_summary, clamp_variant_index, is_svelte_component_manifest_path,
  is_framework_component_preview_mode,
}
use ar_automation_agent.Resume.Meta.{
  Page, idle, generating, apply_saved_session_meta, remember_session_file_meta,
}
use ar_automation_agent.Resume.Restore.{
  Around, Restored, restore_session_without_wrapper, restore_saved, load_session,
  session_to_restore, restored_page, restored_injection, restored_arrived, restored_expected,
  restored_visible, recover_missed_generation_completion, recover_from_summary,
}
use ar_automation_agent.Resume.Restored.{IsRestored, restore_session_without_wrapper-IsRestored}

-- A late message does not move the bar back.
phases :
    advance_phases (codes "queued") ((codes "variants_progress") ∷ (codes "scaffolding") ∷ [])
    ≡ (codes "variants_progress")
unfolding advance_phases advance_phase should_advance_phase phase_rank text_eq
phases = refl

advance_phases-IsAtLeast_example :
    IsAtLeast 0
      (advance_phases (codes "queued") ((codes "variants_progress") ∷ (codes "scaffolding") ∷ []))
unfolding phase_rank text_eq
advance_phases-IsAtLeast_example =
    advance_phases-IsAtLeast 0 (codes "queued")
      ((codes "variants_progress") ∷ (codes "scaffolding") ∷ []) (0, refl, omega arith)
      ((5, refl), ((2, refl), tt))

abbrev location : Location
location = record { pathname = codes "/a"; pathname_of = λ t. some t }

-- A session with no settings but its id.
abbrev bare : Session
bare = record {
  id = some (codes "s1");
  state = none;
  phase = none;
  page_url = none;
  app_root = none;
  file = none;
  source_file = none;
  preview_file = none;
  preview_mode = none;
  action = none;
  count = none;
  expected = none;
  arrived = none;
  visible = none;
  expected_variants = none;
  arrived_variants = none;
  visible_variant = none;
  param_values = none;
  parameter_state = none;
  generation_phase = none;
  insert_placeholder = none;
  picked_anchor = none;
  picked_anchor_viewport_top = none;
  generation_completed = false;
  generation_canceled = false;
}

abbrev saved : Session
saved = record bare {
  state = some (codes "cycling");
  app_root = some (codes "/w");
  expected = some 3;
  visible = some 2;
}

abbrev served : Session
served = record bare {
  phase = some (codes "generating");
  page_url = some (codes "/a");
  source_file = some (codes " src\\A.tsx");
  expected_variants = some 3;
}

abbrev around : Around
around = record {
  location = location;
  app_root = some (codes "/w");
  stored = some saved;
  handled = λ t. false;
  active_sessions = some (served ∷ []);
  is_anchored = λ s. false;
}

abbrev fresh : Page
fresh = record {
  state = idle;
  current_session_id = none;
  expected_variants = 0;
  arrived_variants = 0;
  visible_variant = 0;
  current_source_file = none;
  current_preview_file = none;
  current_preview_mode = none;
  recovery_waiting_for_anchor = false;
  picked_anchor_snapshot = none;
  picked_anchor_viewport_top = none;
  insert_placeholder_snapshot = none;
  selected_action = codes "impeccable";
  selected_count = 3;
  params_current_values = 0;
  parameter_generation_state = codes "idle";
  generation_phase = none;
}

served-IsAdopted :
    find_adoptable_server_session location (λ t. false) (some (served ∷ [])) ≡ some served
unfolding find_adoptable_server_session is_terminal_session_summary is_adoptable_session_phase
    page_matches_current normalize_page_path text_eq
served-IsAdopted = refl

abbrev restored : Restored
restored = record {
  page = record fresh {
    state = generating;
    current_session_id = some (codes "s1");
    expected_variants = 3;
    visible_variant = 2;
    current_source_file = some (codes "src/A.tsx");
    recovery_waiting_for_anchor = true;
  };
  injects = some (codes "src/A.tsx", true);
}

restores : restore_session_without_wrapper around fresh ≡ some restored
unfolding restore_session_without_wrapper session_to_restore load_session restore_saved
    find_active_session_summary restored_page restored_injection restored_arrived restored_expected
    restored_visible clamp_variant_index apply_saved_session_meta remember_session_file_meta
    normalize_session_path is_svelte_component_manifest_path is_framework_component_preview_mode
    page_matches_current normalize_page_path is_terminal_session_summary text_eq trim
restores = refl

restore_session_without_wrapper-IsRestored_example : IsRestored around restored.page
restore_session_without_wrapper-IsRestored_example =
    restore_session_without_wrapper-IsRestored around fresh restored restores

abbrev elsewhere : Session
elsewhere = record saved { app_root = some (codes "/other") }

-- The generation is over and the page waits still: the file is injected.
recovers :
    recover_missed_generation_completion
      (some (record served { generation_completed = true } ∷ []))
      restored.page
    ≡ (restored.page, some (codes "s1", codes " src\\A.tsx"))
unfolding recover_missed_generation_completion recover_from_summary remember_session_file_meta
    normalize_session_path is_svelte_component_manifest_path is_terminal_session_summary
    is_framework_component_preview_mode text_eq trim
recovers = refl

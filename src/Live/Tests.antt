-- ===== src/Live/Tests.antt =====
-- Runs of a session, and its theorems at concrete inputs.
use ar_automation_agent.Prelude.{◌≡◌, refl, true, false, none, some, []}
use ar_automation_agent.Prelude.Text.{codes, text_eq}
use ar_automation_agent.Resume.Phase.{advance_phase, should_advance_phase, phase_rank}
use ar_automation_agent.Resume.Meta.{configuring, cycling, generating}
use ar_automation_agent.Live.State.{Site, Live, save_session}
use ar_automation_agent.Live.Accept.{
  handle_go, handle_accept, on_accept_confirmed, on_accept_failed, on_cleanup_due,
}
use ar_automation_agent.Live.Messages.{agent_phase, on_message, on_agent_phase, on_error}
use ar_automation_agent.Live.Accepting.{
  IsComparing, IsAccepted, stored_id, handle_accept-IsAccepted, on_accept_failed-IsComparing,
  on_accept_failed-handle_go,
}
use ar_automation_agent.Live.Late.{IsTornDown, on_error-IsTornDown}

abbrev site : Site
site = record {
  location = record { pathname = codes "/a"; pathname_of = λ t. some t };
  app_root = none;
  is_anchored = λ s. false;
  has_source_wrapper = false;
}

-- The three variants are there.
abbrev comparing : Live
comparing = record {
  page = record {
    state = cycling;
    current_session_id = some (codes "s1");
    expected_variants = 3;
    arrived_variants = 3;
    visible_variant = 1;
    current_source_file = none;
    current_preview_file = none;
    current_preview_mode = none;
    recovery_waiting_for_anchor = false;
    picked_anchor_snapshot = none;
    picked_anchor_viewport_top = none;
    insert_placeholder_snapshot = none;
    selected_action = codes "impeccable";
    selected_count = 3;
    params_current_values = 0;
    parameter_generation_state = codes "idle";
    generation_phase = some (codes "queued");
  };
  pending = none;
  awaiting_accept_result = none;
  stored = none;
  handled = [];
  steer_request_id = none;
  component_session = none;
  selected = true;
  pending_apply_in_flight = false;
  agent_polling_connected = true;
  has_project_context = true;
  is_active = true;
  sse_retries = 0;
  abandoned_foreign_session = none;
}

abbrev comparing-IsComparing : IsComparing (codes "s1") comparing
comparing-IsComparing = record {
  free = refl;
  none_pending = refl;
  compares = refl;
  session = refl;
  has_id = refl;
  arrived = refl;
}

handle_accept-IsAccepted_example :
    IsAccepted
      (codes "s1")
      (on_cleanup_due
        (codes "s1")
        (on_accept_confirmed (codes "s1") (handle_accept site false 2 none comparing).0).0).0
handle_accept-IsAccepted_example =
    handle_accept-IsAccepted site 2 none (codes "s1") comparing comparing-IsComparing

on_accept_failed-IsComparing_example :
    let l = (on_accept_failed (codes "s1") (handle_accept site false 2 none comparing).0).0 in
    IsComparing (codes "s1") l × (stored_id l.stored ≡ some (codes "s1"))
on_accept_failed-IsComparing_example =
    on_accept_failed-IsComparing site 2 none (codes "s1") comparing comparing-IsComparing

-- The session was discarded while its accept was under way, and another element is picked.
abbrev picked : Live
picked = record comparing {
  page = record comparing.page { state = configuring; current_session_id = none };
}

on_accept_failed-handle_go_example :
    let p =
      (on_accept_failed (codes "s1") (handle_go site (codes "s2") none none picked).0).0.page in
    (p.state ≡ cycling) × (p.current_session_id ≡ some (codes "s2")) × (p.arrived_variants ≡ 0)
on_accept_failed-handle_go_example =
    on_accept_failed-handle_go site (codes "s1") (codes "s2") none none picked refl refl refl refl

on_error-IsTornDown_example :
    IsTornDown (codes "s1") (on_error site (some (codes "s1")) comparing).0
on_error-IsTornDown_example =
    on_error-IsTornDown site (codes "s1") comparing refl refl refl refl refl

abbrev waiting : Live
waiting = record comparing { page = record comparing.page { state = generating } }

abbrev first_reviewable : Live
first_reviewable =
    (on_message site (agent_phase (some (codes "s1")) (codes "first_reviewable")) waiting).0

phase_advances : first_reviewable.page.generation_phase ≡ some (codes "first_reviewable")
unfolding on_message on_agent_phase advance_phase should_advance_phase phase_rank save_session
    text_eq
phase_advances = refl

-- ===== src/Live/State.antt =====
-- The state of live mode, and the steps that its handlers share.
use ar_automation_agent.Prelude.{
  ℕ, ◌-◌, Bool, true, false, not, ◌&&◌, ◌||◌, Option, none, some, List, [], ◌∷◌, ◌++◌, length, drop,
  keep, some_of, if◌then◌else◌,
}
use ar_automation_agent.Prelude.Text.{Text, codes, text_eq, is_set}
use ar_automation_agent.Resume.Summary.{Session, Location, has, set_or_none}
use ar_automation_agent.Resume.Meta.{
  LiveState, idle, picking, configuring, editing, generating, cycling, saving, confirmed, Page,
  reset_session_file_meta,
}

-- `pendingAcceptedSession`, without the copies of nodes that it holds for a page without reloads.
pub record Pending : Type 0 where
  pub id : Text
  pub variant : ℕ
  pub is_svelte_component : Bool
  pub finalizing : Bool

-- What of the document and the server a step asks: where the page is, its project, whether the
-- element of a snapshot is found, and whether a wrapper is there that is no component's.
pub record Site : Type 0 where
  pub location : Location
  pub app_root : Option Text
  pub is_anchored : Option ℕ → Bool
  pub has_source_wrapper : Bool

-- `stored` and `handled` are the contents of the session store; `component_session` is the id of the
-- mounted component session, and `selected` says whether an element is.
pub record Live : Type 0 where
  pub page : Page
  pub pending : Option Pending
  pub awaiting_accept_result : Option Text
  pub stored : Option Session
  pub handled : List Text
  pub steer_request_id : Option Text
  pub component_session : Option Text
  pub selected : Bool
  pub pending_apply_in_flight : Bool
  pub agent_polling_connected : Bool
  pub has_project_context : Bool
  pub is_active : Bool
  pub sse_retries : ℕ
  pub abandoned_foreign_session : Option Text

pub data Toast : Type 0 where
  apply_is_busy no_context accept_unconfirmed discard_unconfirmed cleanup_failed : Toast
  accept_failed agent_error server_lost foreign_cleared variants_ready : Toast

pub data Post : Type 0 where
  generate accept discard : Text → Post

-- What a handler does besides: toasts, requests, injections of a file, timers, the microtask that
-- cleans up behind an accept, and the unlocking of the chat.
pub data Effect : Type 0 where
  toast : Toast → Effect
  posts : Post → Effect
  injects_component : Text → Text → Effect
  injects_source : Text → Bool → Effect
  checks_source recovers_source : Text → Text → Effect
  reminds awaits_selection shows_cycling hides_bar : Effect
  cleans_up commits : Text → Effect
  unlocks_steer : Text → Bool → Effect
  manual_edit : Effect

abbrev pub Outcome : Type 0
Outcome = Live × List Effect

-- `a === b`, where the left may be missing: what is missing is no id.
abbrev pub is_id : Option Text → Option Text → Bool
is_id none b = false
is_id (some a) none = false
is_id (some a) (some b) = text_eq a b

abbrev pub is_in_state : LiveState → LiveState → Bool
is_in_state idle idle = true
is_in_state picking picking = true
is_in_state configuring configuring = true
is_in_state editing editing = true
is_in_state generating generating = true
is_in_state cycling cycling = true
is_in_state saving saving = true
is_in_state confirmed confirmed = true
is_in_state a b = false

abbrev pub state_name : LiveState → Text
state_name idle = codes "IDLE"
state_name picking = codes "PICKING"
state_name configuring = codes "CONFIGURING"
state_name editing = codes "EDITING"
state_name generating = codes "GENERATING"
state_name cycling = codes "CYCLING"
state_name saving = codes "SAVING"
state_name confirmed = codes "CONFIRMED"

unfoldable pub set_live_state : LiveState → Live → Live
set_live_state s l = record l { page = record l.page { state = s } }

-- The hash and the query of the page are stored too, and no part of the model reads them.
unfoldable pub saved_page : Site → Page → Session
saved_page site p = record {
  id = p.current_session_id;
  state = some (state_name p.state);
  phase = none;
  page_url = some site.location.pathname;
  app_root = set_or_none site.app_root;
  file = none;
  source_file = set_or_none p.current_source_file;
  preview_file = set_or_none p.current_preview_file;
  preview_mode = set_or_none p.current_preview_mode;
  action = some p.selected_action;
  count = some p.selected_count;
  expected = some p.expected_variants;
  arrived = some p.arrived_variants;
  visible = some p.visible_variant;
  expected_variants = none;
  arrived_variants = none;
  visible_variant = none;
  param_values = some p.params_current_values;
  parameter_state = some p.parameter_generation_state;
  generation_phase = none;
  insert_placeholder = p.insert_placeholder_snapshot;
  picked_anchor = p.picked_anchor_snapshot;
  picked_anchor_viewport_top = p.picked_anchor_viewport_top;
  generation_completed = false;
  generation_canceled = false;
}

unfoldable pub save_session : Site → Live → Live
save_session site l =
    if has l.page.current_session_id then record l { stored = some (saved_page site l.page) } else l

-- The last eight ids are kept, as the session store keeps them.
abbrev pub last_eight_of : List Text → List Text
last_eight_of ids = drop (length ids - 8) ids

abbrev pub with_handled : Option Text → List Text → List Text
with_handled none ids = ids
with_handled (some id) ids =
    if is_set id then last_eight_of (keep (λ i. not (text_eq i id)) ids ++ id ∷ []) else ids

unfoldable pub mark_session_handled : Live → Live
mark_session_handled l = record l { handled = with_handled l.page.current_session_id l.handled }

abbrev pub is_session_handled : Live → Text → Bool
is_session_handled l id = is_set id && some_of (text_eq id) l.handled

-- The page without its session.
abbrev pub released : Page → Page
released p = record (reset_session_file_meta p) {
  state = picking;
  current_session_id = none;
  parameter_generation_state = codes "idle";
  selected_action = codes "impeccable";
}

-- `cleanup`; the pending accept is not among what it resets. The insert session that it finalizes
-- takes its snapshot with it.
unfoldable pub cleanup : Live → Live
cleanup l = record l {
  page = record (released l.page) { insert_placeholder_snapshot = none };
  stored = none;
  selected = false;
  component_session =
      if is_id l.component_session l.page.current_session_id then none else l.component_session;
}

unfoldable pub cleanup_accepted_session : Live → Live
cleanup_accepted_session l = record l {
  page = released l.page;
  stored = none;
  selected = false;
  pending = none;
}

unfoldable pub abandon_foreign_session : Text → Live → Outcome
abandon_foreign_session id l =
    if is_id (some id) l.abandoned_foreign_session
      || not (is_id (some id) l.page.current_session_id)
    then (l, [])
    else (
      cleanup (mark_session_handled (record l { abandoned_foreign_session = some id })),
      toast foreign_cleared ∷ [],
    )

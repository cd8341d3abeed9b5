-- ===== src/Live/Messages.antt =====
-- `connectSSE`: the messages of the server, and the loss of its connection.
use ar_automation_agent.Prelude.{
  ℕ, suc, Bool, true, false, not, ◌&&◌, ◌||◌, Option, none, some, List, [], ◌∷◌, ◌++◌, ltb, leb,
  if◌then◌else◌,
}
use ar_automation_agent.Prelude.Text.{Text, codes}
use ar_automation_agent.Resume.Phase.{advance_phase}
use ar_automation_agent.Resume.Summary.{Session, has, text_of, is_framework_component_preview_mode}
use ar_automation_agent.Resume.Meta.{
  Page, idle, picking, generating, cycling, saving, confirmed, remember_session_file_meta,
}
use ar_automation_agent.Resume.Restore.{
  Around, Restored, load_session, restore_session_without_wrapper,
  recover_missed_generation_completion,
}
use ar_automation_agent.Live.State.{
  Pending, Site, Live, Effect, toast, no_context, cleanup_failed, accept_failed, agent_error,
  server_lost, variants_ready, injects_component, injects_source, checks_source, recovers_source,
  reminds, shows_cycling, hides_bar, cleans_up, commits, unlocks_steer, manual_edit, Outcome, is_id,
  is_in_state, set_live_state, save_session, mark_session_handled, is_session_handled, cleanup,
}

-- The messages by their type. What a message says of a session is a summary, with its id.
pub data Message : Type 0 where
  connected : Bool → Bool → Option (List Session) → Message
  agent_polling : Bool → Message
  agent_phase : Option Text → Text → Message
  variant_progress : Bool → Session → Message
  steer_done : Option Text → Message
  manual_edit_activity : Message
  done : Session → Message
  complete accepted : Option Text → Message
  agent_done : Option Text → Bool → Message
  discarded error : Option Text → Message

abbrev pub is_current : Option Text → Live → Bool
is_current id l = is_id id l.page.current_session_id

abbrev pub around : Site → Option (List Session) → Live → Around
around site sessions l = record {
  location = site.location;
  app_root = site.app_root;
  stored = l.stored;
  handled = is_session_handled l;
  active_sessions = sessions;
  is_anchored = site.is_anchored;
}

abbrev pub injection : Option (Text × Bool) → List Effect
injection none = []
injection (some (file, orphan)) = injects_source file orphan ∷ []

abbrev pub on_restored : Site → Option Restored → Live → Outcome
on_restored site none l = (l, [])
on_restored site (some r) l =
    (save_session site (record l { page = r.page; selected = true }), injection r.injects)

-- `restoreFromActiveSessions`; to load the session clears one of another project.
unfoldable pub restore_from_active_sessions : Site → Option (List Session) → Live → Outcome
restore_from_active_sessions site sessions l =
    if site.has_source_wrapper || is_id l.component_session l.page.current_session_id
    then (l, [])
    else let l' = record l { stored = (load_session site.app_root l.stored).0 } in
      on_restored site (restore_session_without_wrapper (around site sessions l) l.page) l'

abbrev pub recovery : Option (Text × Text) → List Effect
recovery none = []
recovery (some (id, file)) = recovers_source id file ∷ []

unfoldable pub on_connected : Site → Bool → Bool → Option (List Session) → Live → Outcome
on_connected site context polling sessions l =
    let l0 = record l { has_project_context = context; agent_polling_connected = polling } in
    let (l1, es) = restore_from_active_sessions site sessions l0 in
    let (p, due) = recover_missed_generation_completion sessions l1.page in
    let l2 = record l1 { page = p } in
    let l3 = if is_in_state idle p.state && l.is_active then set_live_state picking l2 else l2 in
    (l3, (if context then [] else toast no_context ∷ []) ++ es ++ recovery due)

abbrev pub with_phase : Text → Live → Live
with_phase phase l = record l { page = record l.page { generation_phase = some phase } }

unfoldable pub on_agent_phase : Site → Option Text → Text → Live → Outcome
on_agent_phase site id phase l =
    if is_current id l && (is_in_state generating l.page.state || is_in_state cycling l.page.state)
    then (
      save_session site (with_phase (advance_phase (text_of l.page.generation_phase) phase) l),
      [],
    )
    else (l, [])

abbrev pub with_params : Bool → Page → Page
with_params params p =
    if params then record p { parameter_generation_state = codes "loading" } else p

-- `params`: the message is about the pass of the parameters.
unfoldable pub on_variant_progress : Bool → Session → Live → Outcome
on_variant_progress params m l =
    if is_current m.id l
    then (
      record l { page = remember_session_file_meta m (with_params params l.page) },
      if is_framework_component_preview_mode m.preview_mode && has m.preview_file
          then injects_component (text_of m.preview_file) (text_of m.id) ∷ []
          else [],
    )
    else (l, [])

-- `maybeCompleteSteer`, for the two types of message that end a request.
unfoldable pub complete_steer : Bool → Live → Outcome
complete_steer fails l =
    (record l { steer_request_id = none }, unlocks_steer (text_of l.steer_request_id) fails ∷ [])

abbrev pub is_steer : Option Text → Live → Bool
is_steer id l = has l.steer_request_id && is_id id l.steer_request_id

unfoldable pub all_arrived : Live → Bool
all_arrived l =
    leb l.page.expected_variants l.page.arrived_variants && ltb 0 l.page.expected_variants

-- The done of a generation, with the file's meta taken over.
unfoldable pub on_done : Session → Live → Outcome
on_done m l =
    let p = remember_session_file_meta m l.page in
    let l' = record l { page = p } in
    if is_current m.id l'
      && is_framework_component_preview_mode p.current_preview_mode
      && has p.current_preview_file
    then (l', injects_component (text_of p.current_preview_file) (text_of m.id) ∷ [])
    else if all_arrived l'
    then if is_in_state generating p.state
      then (set_live_state cycling l', shows_cycling ∷ [])
      else (l', [])
    else if has m.file && has m.id && is_in_state generating p.state && is_current m.id l'
    then (l', checks_source (text_of m.id) (text_of m.file) ∷ [])
    else (l', reminds ∷ [])

-- The timers of a done, when they fire.
unfoldable pub on_source_due : Text → Text → Live → List Effect
on_source_due id file l =
    if all_arrived l || not (is_in_state generating l.page.state) || not (is_current (some id) l)
    then []
    else injects_source file false ∷ []

unfoldable pub on_reminder_due : Live → List Effect
on_reminder_due l =
    if all_arrived l || not (is_in_state generating l.page.state)
    then []
    else toast variants_ready ∷ []

abbrev pub finalized : Pending → Live → Outcome
finalized p l = if p.finalizing then (l, []) else (
  set_live_state confirmed
      (mark_session_handled (record l { pending = some (record p { finalizing = true }) })),
  (if p.is_svelte_component then commits p.id ∷ [] else []) ++ cleans_up p.id ∷ [],
)

-- `maybeCompleteAcceptedSession`; nothing behind it reads whether it completed one.
unfoldable pub maybe_complete_accepted_session : Option Text → Live → Outcome
maybe_complete_accepted_session id l = elim l.pending [
  | none ↦ (l, [])
  | some p ↦
      if not (has id) || not (is_id id (some p.id))
      then (l, [])
      else if has l.page.current_session_id && not (is_current (some p.id) l)
      then (record l { pending = none }, [])
      else finalized p l
]

-- The window in which a failure of an accept is told closes with its result.
unfoldable pub close_window : Option Text → Live → Live
close_window id l =
    if has l.awaiting_accept_result && is_id id l.awaiting_accept_result
    then record l { awaiting_accept_result = none }
    else l

unfoldable pub on_accept_result : Option Text → Live → Outcome
on_accept_result id l = maybe_complete_accepted_session id (close_window id l)

-- Only the done of a carbonizing is of an accept.
unfoldable pub on_agent_done : Option Text → Bool → Live → Outcome
on_agent_done id carbonize l = if carbonize then on_accept_result id l else (l, [])

unfoldable pub on_discarded : Option Text → Live → Outcome
on_discarded id l =
    if has id && is_current id l then (cleanup (mark_session_handled l), []) else (l, [])

abbrev pub is_pending_message : Option Text → Option Pending → Bool
is_pending_message id none = false
is_pending_message id (some p) = is_id (some p.id) id && has (some p.id)

abbrev pub without_id : Option Text → Option Session → Option Session
without_id id none = none
without_id id (some s) = if has id && is_id id s.id then none else some s

-- An error of no accept and of no request of the chat.
unfoldable pub on_agent_error : Site → Option Text → Live → Outcome
on_agent_error site id l =
    if has id && is_current id l
    then (cleanup (mark_session_handled l), toast agent_error ∷ [])
    else let loaded = if has id then (load_session site.app_root l.stored).0 else l.stored in
      (
        set_live_state picking (record l { stored = without_id id loaded }),
        toast agent_error ∷ hides_bar ∷ [],
      )

unfoldable pub on_error : Site → Option Text → Live → Outcome
on_error site id l =
    if is_pending_message id l.pending
    then (
      set_live_state cycling (record l { pending = none; awaiting_accept_result = none }),
      toast cleanup_failed ∷ [],
    )
    else if has l.awaiting_accept_result && is_id id l.awaiting_accept_result
    then (record l { awaiting_accept_result = none }, toast accept_failed ∷ [])
    else if is_steer id l
    then complete_steer true l
    else on_agent_error site id l

unfoldable pub on_message : Site → Message → Live → Outcome
on_message site (connected context polling sessions) l =
    on_connected site context polling sessions l
on_message site (agent_polling polling) l = (record l { agent_polling_connected = polling }, [])
on_message site (agent_phase id phase) l = on_agent_phase site id phase l
on_message site (variant_progress params m) l = on_variant_progress params m l
on_message site (steer_done id) l = if is_steer id l then complete_steer false l else (l, [])
on_message site manual_edit_activity l = (l, manual_edit ∷ [])
on_message site (done m) l = on_done m l
on_message site (complete id) l = on_accept_result id l
on_message site (accepted id) l = on_accept_result id l
on_message site (agent_done id carbonize) l = on_agent_done id carbonize l
on_message site (discarded id) l = on_discarded id l
on_message site (error id) l = on_error site id l

abbrev pub sse_max_retries : ℕ
sse_max_retries = 20

unfoldable pub handle_server_lost : Site → Live → Outcome
handle_server_lost site l =
    let working =
      is_in_state generating l.page.state
      || is_in_state cycling l.page.state
      || is_in_state saving l.page.state in
    let kept = if has l.page.current_session_id then l.page.state else idle in
    let p = record l.page { state = kept; selected_action = codes "impeccable" } in
    (
      save_session site (record l { page = p; selected = false }),
      (if working then toast server_lost ∷ [] else []) ++ hides_bar ∷ [],
    )

-- A lost connection is tried again by the browser; behind the last try the server is gone.
unfoldable pub on_connection_error : Site → Live → Outcome
on_connection_error site l =
    let retries = suc l.sse_retries in
    if leb retries sse_max_retries
    then (record l { sse_retries = retries }, [])
    else handle_server_lost site (record l { sse_retries = retries })

-- `onmessage` and `onopen`: what comes in ends the count of the tries.
unfoldable pub receive : Site → Message → Live → Outcome
receive site m l = on_message site m (record l { sse_retries = 0 })

unfoldable pub on_open : Live → Live
on_open l = record l { sse_retries = 0 }

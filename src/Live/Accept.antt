-- ===== src/Live/Accept.antt =====
-- Go, Accept and Discard, with the answers of their requests.
use ar_automation_agent.Prelude.{
  ℕ, Bool, true, false, not, ◌||◌, Option, none, some, List, [], ◌∷◌, ltb, ◌==◌, if◌then◌else◌,
}
use ar_automation_agent.Prelude.Int.{ℤ}
use ar_automation_agent.Prelude.Text.{Text, codes, text_eq}
use ar_automation_agent.Resume.Summary.{has, text_of, is_framework_component_preview_mode}
use ar_automation_agent.Resume.Meta.{
  configuring, generating, cycling, saving, confirmed, reset_session_file_meta,
}
use ar_automation_agent.Live.State.{
  Pending, Site, Live, toast, posts, apply_is_busy, accept_unconfirmed, discard_unconfirmed,
  generate, accept, discard, awaits_selection, shows_cycling, cleans_up, commits, Effect, Outcome,
  is_id, is_in_state, set_live_state, save_session, mark_session_handled, cleanup,
  cleanup_accepted_session,
}

-- `handleGo`, for a new id and what it takes from the picked element: its snapshot and its top.
unfoldable pub handle_go : Site → Text → Option ℕ → Option ℤ → Live → Outcome
handle_go site id anchor top l =
    if l.pending_apply_in_flight
    then (l, toast apply_is_busy ∷ [])
    else if not l.selected || not (is_in_state configuring l.page.state)
    then (l, [])
    else let p = record (reset_session_file_meta l.page) {
      current_session_id = some id;
      expected_variants = l.page.selected_count;
      arrived_variants = 0;
      visible_variant = 0;
      generation_phase = some (codes "queued");
      parameter_generation_state = codes "pending";
      picked_anchor_snapshot = anchor;
      picked_anchor_viewport_top = top;
      state = generating;
    } in
      let l' = record l { page = p; pending = none; awaiting_accept_result = none } in
      (save_session site l', posts (generate id) ∷ [])

abbrev pub is_pending : Option Pending → Bool
is_pending none = false
is_pending (some p) = true

-- Whether the accepted variant is one of a component: `preview` is the mode of the wrapper.
abbrev pub is_component_accept : Option Text → Live → Bool
is_component_accept preview l =
    is_id l.component_session l.page.current_session_id
    || is_framework_component_preview_mode preview

-- `handleAccept` behind its wait: `dom_visible` is the variant that the document shows, 0 for none.
unfoldable pub accept_selected : Site → ℕ → Option Text → Live → Outcome
accept_selected site dom_visible preview l =
    let shown = if ltb 0 dom_visible then dom_visible else l.page.visible_variant in
    let l1 = record l { page = record l.page { visible_variant = shown } } in
    if not (has l.page.current_session_id) || l.page.arrived_variants == 0
    then (l1, [])
    else let id = text_of l.page.current_session_id in
      let pending : Pending = record {
        id = id;
        variant = shown;
        is_svelte_component = is_component_accept preview l;
        finalizing = false;
      } in
      let l2 = record (set_live_state saving l1) { pending = some pending } in
      (save_session site l2, posts (accept id) ∷ [])

-- `selecting`: a selection of a variant is still under way, and is waited for.
unfoldable pub handle_accept : Site → Bool → ℕ → Option Text → Live → Outcome
handle_accept site selecting dom_visible preview l =
    if l.pending_apply_in_flight
    then (l, toast apply_is_busy ∷ [])
    else if is_pending l.pending || is_in_state saving l.page.state
    then (l, [])
    else if selecting
    then (l, awaits_selection ∷ [])
    else accept_selected site dom_visible preview l

abbrev pub is_pending_id : Option Pending → Text → Bool
is_pending_id none id = false
is_pending_id (some p) id = text_eq p.id id

-- The request of an accept has succeeded: the intent is stored, its result is still to come.
unfoldable pub on_accept_confirmed : Text → Live → Outcome
on_accept_confirmed id l =
    if is_pending_id l.pending id
    then (
      record (set_live_state confirmed (mark_session_handled l)) {
        awaiting_accept_result = some id;
      },
      cleans_up id ∷ [],
    )
    else (l, [])

unfoldable pub on_accept_failed : Text → Live → Outcome
on_accept_failed id l = (
  set_live_state cycling
      (record l { pending = if is_pending_id l.pending id then none else l.pending }),
  shows_cycling ∷ toast accept_unconfirmed ∷ [],
)

abbrev pub commit_of : Option Pending → List Effect
commit_of none = []
commit_of (some p) = if p.is_svelte_component then commits p.id ∷ [] else []

-- The microtask of `scheduleAcceptCleanup`.
unfoldable pub on_cleanup_due : Text → Live → Outcome
on_cleanup_due id l =
    if is_pending_id l.pending id
    then (cleanup_accepted_session l, commit_of l.pending)
    else (l, [])

unfoldable pub handle_discard : Live → Outcome
handle_discard l =
    if l.pending_apply_in_flight
    then (l, toast apply_is_busy ∷ [])
    else if has l.page.current_session_id
    then (l, posts (discard (text_of l.page.current_session_id)) ∷ [])
    else (l, [])

unfoldable pub on_discard_confirmed : Live → Outcome
on_discard_confirmed l = (cleanup (mark_session_handled l), [])

unfoldable pub on_discard_failed : Live → Outcome
on_discard_failed l = (l, toast discard_unconfirmed ∷ [])

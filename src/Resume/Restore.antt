-- ===== src/Resume/Restore.antt =====
-- `restoreSessionWithoutWrapper` and `recoverMissedGenerationCompletion` of live-browser.js.
use ar_automation_agent.Prelude.{
  ℕ, ◌-◌, Bool, true, false, not, ◌&&◌, ◌||◌, Option, none, some, List, [], ◌∷◌, ltb, leb, ◌==◌,
  if◌then◌else◌, find_first,
}
use ar_automation_agent.Prelude.Text.{Text, codes, text_eq}
use ar_automation_agent.Resume.Summary.{
  Session, has, or_else, number, or_number, text_of, is_terminal_session_summary,
  clamp_variant_index, is_framework_component_preview_mode, Location, find_active_session_summary,
  find_adoptable_server_session, server_session_as_saved_shape, same_id,
}
use ar_automation_agent.Resume.Meta.{
  LiveState, generating, Page, apply_saved_session_meta, remember_session_file_meta,
}

-- `loadSession`: another project's session is none of this page's, and is cleared from the storage.
-- `app_root` is this page's.
abbrev pub is_foreign : Option Text → Session → Bool
is_foreign app_root s =
    has s.app_root && has app_root && not (text_eq (text_of s.app_root) (text_of app_root))

unfoldable pub load_session : Option Text → Option Session → Option Session × Bool
load_session app_root none = (none, false)
load_session app_root (some s) = if is_foreign app_root s then (none, true) else (some s, false)

-- `toUpperCase`, of ASCII.
abbrev pub upper : Text → Text
upper [] = []
upper (c ∷ cs) = (if leb 97 c && leb c 122 then c - 32 else c) ∷ upper cs

abbrev pub is_generating : Session → Bool
is_generating s = text_eq (upper (text_of s.state)) (codes "GENERATING")

abbrev pub is_cycling : Session → Bool
is_cycling s = text_eq (upper (text_of s.state)) (codes "CYCLING")

-- What a restore reads besides the page: the stored session, the sessions that the server names, the
-- ids that are handled, and whether the element of a snapshot is found in the document.
pub record Around : Type 0 where
  pub location : Location
  pub app_root : Option Text
  pub stored : Option Session
  pub handled : Text → Bool
  pub active_sessions : Option (List Session)
  pub is_anchored : Option ℕ → Bool

-- The page and the injection that is started from a file, with the flag that lets an orphan of it
-- be discarded.
pub record Restored : Type 0 where
  pub page : Page
  pub injects : Option (Text × Bool)

abbrev pub saved_of : Option Session → Option Session
saved_of none = none
saved_of (some s) = if has s.id then some s else none

-- The stored session if it has an id, or else one of the server's.
unfoldable pub session_to_restore : Around → Option Session
session_to_restore a = elim (saved_of (load_session a.app_root a.stored).0) [
  | some s ↦ some s
  | none ↦ elim (find_adoptable_server_session a.location a.handled a.active_sessions) [
    | none ↦ none
    | some s ↦ some (server_session_as_saved_shape s)
  ]
]

abbrev pub number_at : Option Session → (Session → Option ℕ) → ℕ
number_at none f = 0
number_at (some s) f = number (f s)

abbrev pub is_some_list : Option (List Session) → Bool
is_some_list (some (s ∷ ss)) = true
is_some_list _ = false

abbrev pub is_none : Option Session → Bool
is_none none = true
is_none (some s) = false

-- The counts, from the page on which both sets of settings are applied.
unfoldable pub restored_arrived : Session → Option Session → Page → ℕ
restored_arrived saved server p =
    let arrived = or_number (number saved.arrived) (number_at server λ s. s.arrived_variants) in
    if arrived == 0 && has p.current_preview_file
    then or_number (number_at server λ s. s.expected_variants)
        (or_number (number saved.expected) p.selected_count)
    else arrived

unfoldable pub restored_expected : Session → Option Session → Page → ℕ
restored_expected saved server p =
    let expected =
      or_number (number saved.expected)
        (or_number (number_at server λ s. s.expected_variants) p.selected_count) in
    if expected == 0
    then or_number (number_at server λ s. s.expected_variants)
        (or_number (restored_arrived saved server p) p.selected_count)
    else expected

abbrev pub visible_of : Option Session → Option ℕ
visible_of none = none
visible_of (some s) = s.visible_variant

unfoldable pub restored_visible : Session → Option Session → ℕ → ℕ → ℕ
restored_visible saved server arrived expected =
    let count = or_number arrived expected in
    or_number (clamp_variant_index saved.visible count)
      (or_number (clamp_variant_index (visible_of server) count) (if ltb 0 arrived then 1 else 0))

unfoldable pub restored_page : Around → Session → Option Session → Page → Page
restored_page a saved server p =
    let q = record p { current_session_id = saved.id } in
    let m = apply_saved_session_meta (some saved) (apply_saved_session_meta server q) in
    let arrived = restored_arrived saved server m in
    let expected = restored_expected saved server m in
    record m {
      expected_variants = expected;
      arrived_variants = arrived;
      visible_variant = restored_visible saved server arrived expected;
      state = generating;
      recovery_waiting_for_anchor = not (a.is_anchored m.picked_anchor_snapshot);
    }

-- Without a file nothing is injected.
unfoldable pub restored_injection : Session → Page → Option (Text × Bool)
restored_injection saved p =
    let component = is_framework_component_preview_mode p.current_preview_mode in
    let file =
      if component
      then p.current_preview_file
      else or_else p.current_source_file p.current_preview_file in
    if has file then some (text_of file, is_cycling saved && not component) else none

-- The server names sessions, and not this one.
abbrev pub is_unknown : Around → Option Session → Bool
is_unknown a server = is_some_list a.active_sessions && is_none server

unfoldable pub restore_saved : Around → Session → Page → Option Restored
restore_saved a saved p =
    if not (has saved.id) || a.handled (text_of saved.id)
    then none
    else if not (is_generating saved) && not (is_cycling saved)
    then none
    else let server = find_active_session_summary a.location saved a.active_sessions in
      if is_unknown a server
      then none
      else let q = restored_page a saved server p in
        some (record { page = q; injects = restored_injection saved q })

-- none is the result false.
unfoldable pub restore_session_without_wrapper : Around → Page → Option Restored
restore_session_without_wrapper a p = elim (session_to_restore a) [
  | none ↦ none
  | some saved ↦ restore_saved a saved p
]

abbrev pub is_generating_state : LiveState → Bool
is_generating_state generating = true
is_generating_state _ = false

abbrev pub has_arrived : Page → Bool
has_arrived p = ltb 0 p.arrived_variants && leb p.expected_variants p.arrived_variants

abbrev pub summary_of : Option Text → Option (List Session) → Option Session
summary_of id none = none
summary_of id (some sessions) = find_first (λ s. same_id id s) sessions

abbrev pub recovery_file : Session → Page → Option Text
recovery_file s p =
    if is_framework_component_preview_mode p.current_preview_mode
    then p.current_preview_file
    else or_else s.source_file
        (or_else s.preview_file (or_else p.current_source_file p.current_preview_file))

-- The recovery up to its timer: the page, and the session and the file that the timer is set for.
unfoldable pub recover_from_summary : Session → Page → Page × Option (Text × Text)
recover_from_summary s p =
    if not s.generation_completed
      || s.generation_canceled
      || is_terminal_session_summary s
      || has_arrived p
    then (p, none)
    else let q = remember_session_file_meta s p in
      let file = recovery_file s q in
      (q, if has file then some (text_of p.current_session_id, text_of file) else none)

unfoldable pub recover_missed_generation_completion :
    Option (List Session) → Page → Page × Option (Text × Text)
recover_missed_generation_completion sessions p =
    if not (has p.current_session_id) || not (is_generating_state p.state)
    then (p, none)
    else elim (summary_of p.current_session_id sessions) [
      | none ↦ (p, none)
      | some s ↦ recover_from_summary s p
    ]

-- When the timer fires: the file is injected if the page is still where it was.
unfoldable pub recovery_due : Text → Page → Bool
recovery_due id p =
    text_eq (text_of p.current_session_id) id && is_generating_state p.state && not (has_arrived p)

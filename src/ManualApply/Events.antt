-- ===== src/ManualApply/Events.antt =====
-- What moves an apply: the messages of the server (`handleManualEditActivity`), the buttons of the
-- dock, and the answers to the requests that they make. A request is sent by one event and answered
-- by another, so that messages may come between the two.
use Prim.Native.String.{String}
use text.Mathlib.Text.{◌==◌ as str_eq}
use ar_automation_agent.Prelude.{
  ℕ, Bool, true, false, not, ◌||◌, ◌&&◌, Option, none, some, List, [], ◌∷◌, if◌then◌else◌, ◌==◌,
}
use ar_automation_agent.ManualApply.Stored.{
  repairing, repair_decision, Here, needs_attention, or_count, or_missing,
  clear_stored_manual_apply_state, reset_manual_apply_progress, store_manual_apply_state,
  read_stored_manual_apply_state,
}
use ar_automation_agent.ManualApply.Dock.{
  Dock, hide_pending_apply_dock, set_pending_apply_loading, update_pending_counter, Field, missing,
  counts, number_or_null, Chunk, Repair, repaired, count_in, max_attempts_of,
  update_manual_apply_progress_from_chunk, update_manual_apply_repair_state,
}

-- What is shown or sent besides the dock.
pub data Effect : Type 0 where
  toast_applied toast_partly : ℕ → Effect
  toast_nothing toast_failed toast_discarded toast_rolled_back toast_rollback_failed : Effect
  toast_repair_failed : Effect
  fetch_pending_count post_commit post_repair post_discard post_rollback : Effect

abbrev pub Outcome : Type 0
Outcome = Dock × List Effect

abbrev pub quiet : Dock → Outcome
quiet d = (d, [])

pub record Counts : Type 0 where
  pub per_page : Field
  pub remaining : Field
  pub total : Field

abbrev pub zero_total : Option ℕ → Option ℕ
zero_total none = none
zero_total (some n) = if n == 0 then some 0 else none

unfoldable pub remaining_manual_edit_count : Counts → Option ℕ
remaining_manual_edit_count c = elim (number_or_null c.per_page) [
  | some n ↦ some n
  | none ↦ elim (number_or_null c.remaining) [
    | some n ↦ some n
    | none ↦ zero_total (number_or_null c.total)
  ]
]

pub data Kind : Type 0 where
  stashed : Field → Kind
  commit_started : Field → Bool → Kind
  apply_reply_received : Option Chunk → Option Repair → Kind
  apply_dispatched : Option Repair → Kind
  repair_needs_decision : Field → Option Repair → Kind
  repair_rollback_done : Kind
  commit_done : Bool → Counts → Option Repair → Field → Field → Field → Kind
  commit_failed discarded : Kind

-- `page_url` is none if the message names no page.
pub record Message : Type 0 where
  pub page_url : Option String
  pub kind : Kind

unfoldable pub manual_edit_event_for_current_page : Here → Option String → Bool
manual_edit_event_for_current_page h none = true
manual_edit_event_for_current_page h (some p) = str_eq p "" || str_eq p h.pathname

abbrev pub no_repair : Repair
no_repair = record { attempt = missing; attempts = missing; max_attempts = missing }

abbrev pub given : Option Repair → Repair
given none = no_repair
given (some r) = r

abbrev pub first_repair : Repair
first_repair = record { attempt = counts 1; attempts = missing; max_attempts = counts 3 }

abbrev pub decision_attempt_of : Option Repair → ℕ
decision_attempt_of r =
    or_missing (number_or_null (given r).attempts) (or_missing (number_or_null (given r).attempt) 3)

unfoldable pub show_manual_apply_decision : Here → Field → Option Repair → Dock → Dock
show_manual_apply_decision h remaining r d =
    let count = or_count d.count (or_missing (number_or_null remaining) 0) in
    let storage =
      store_manual_apply_state h count
        (repaired repair_decision (decision_attempt_of r) (max_attempts_of (given r))) d.storage in
    if d.built
    then record d {
      in_flight = false;
      storage = storage;
      spinner_shown = false;
      label = needs_attention;
      count_shown = false;
      pill_disabled = true;
      busy = false;
      pill_shown = true;
      trash_shown = false;
      keep_fixing_shown = true;
      rollback_shown = true;
      dock_shown = true;
    }
    else record d { in_flight = false; storage = storage }

abbrev pub stash_step : Here → Option ℕ → Dock → Dock
stash_step h none d = d
stash_step h (some n) d = update_pending_counter h n d

unfoldable pub on_stashed : Here → Field → Dock → Dock
on_stashed h pending d = stash_step h (number_or_null pending) d

-- A pending count of 0 or none leaves the counter and the progress as they are.
unfoldable pub on_commit_started : Here → Field → Bool → Dock → Dock
on_commit_started h pending repair_only d =
    let n = or_missing (number_or_null pending) 0 in
    let d1 = if n == 0 then d else update_pending_counter h n d in
    let d2 =
      if not repair_only && not (n == 0)
      then record d1 { storage = reset_manual_apply_progress h n d1.storage }
      else d1 in
    let d3 =
      if repair_only then update_manual_apply_repair_state h first_repair repairing d2 else d2 in
    set_pending_apply_loading h true (if n == 0 then none else some n) d3

abbrev pub chunk_step : Here → Option Chunk → Dock → Dock
chunk_step h none d = d
chunk_step h (some c) d = update_manual_apply_progress_from_chunk h c d

abbrev pub repair_step : Here → Option Repair → Dock → Dock
repair_step h none d = d
repair_step h (some r) d = update_manual_apply_repair_state h r repairing d

unfoldable pub on_apply_reply : Here → Option Chunk → Option Repair → Dock → Dock
on_apply_reply h chunk repair d = repair_step h repair (chunk_step h chunk d)

abbrev pub result_toast : ℕ → ℕ → List Effect
result_toast failed applied =
    if failed == 0
    then (if applied == 0 then [] else toast_applied applied ∷ [])
    else toast_partly applied ∷ []

-- `decides` is true if the reason or the flag of the message asks for a decision.
unfoldable pub on_commit_done :
    Here → Bool → Counts → Option Repair → Field → Field → Field → Dock → Outcome
on_commit_done h decides c repair failed applied cleared d =
    if decides
    then quiet (show_manual_apply_decision h c.remaining repair d)
    else let d1 = set_pending_apply_loading h false none d in
      let d2 = update_pending_counter h (or_missing (remaining_manual_edit_count c) 0) d1 in
      (
        d2,
        if d.in_flight
            then result_toast (or_missing (number_or_null failed) 0)
                (or_missing (number_or_null applied) (or_missing (number_or_null cleared) 0))
            else [],
      )

abbrev pub on_kind : Here → Kind → Dock → Outcome
on_kind h (stashed pending) d = quiet (on_stashed h pending d)
on_kind h (commit_started pending repair_only) d = quiet (on_commit_started h pending repair_only d)
on_kind h (apply_reply_received chunk repair) d = quiet (on_apply_reply h chunk repair d)
on_kind h (apply_dispatched repair) d = quiet (repair_step h repair d)
on_kind h (repair_needs_decision remaining repair) d =
    quiet (show_manual_apply_decision h remaining repair d)
on_kind h repair_rollback_done d =
    (record d { storage = clear_stored_manual_apply_state d.storage }, fetch_pending_count ∷ [])
on_kind h (commit_done decides c repair failed applied cleared) d =
    on_commit_done h decides c repair failed applied cleared d
on_kind h commit_failed d = (set_pending_apply_loading h false none d, fetch_pending_count ∷ [])
on_kind h discarded d = (d, fetch_pending_count ∷ [])

unfoldable pub handle_manual_edit_activity : Here → Message → Dock → Outcome
handle_manual_edit_activity h m d =
    if manual_edit_event_for_current_page h m.page_url then on_kind h m.kind d else quiet d

-- `fetchPendingCount`: a failed request changes nothing; a count that is missing is 0.
unfoldable pub on_pending_count : Here → Option Field → Dock → Dock
on_pending_count h none d = d
on_pending_count h (some n) d = update_pending_counter h (or_missing (number_or_null n) 0) d

-- `onPendingPillClick` up to its request; `agrees` is the user's answer.
unfoldable pub on_pending_pill_click : Here → Bool → Dock → Outcome
on_pending_pill_click h agrees d = if d.count == 0 || d.in_flight || not agrees then quiet d else (
  set_pending_apply_loading h true (some d.count)
      (record d { storage = reset_manual_apply_progress h d.count d.storage }),
  post_commit ∷ [],
)

-- The answer to the request: it has failed, it was accepted and its messages follow, or its result
-- is there with the counts of failed and of applied edits.
pub data Answer : Type 0 where
  fails accepted : Answer
  result : Counts → ℕ → ℕ → Answer

-- The `finally` of the handler.
unfoldable pub settle_apply : Here → Dock → Dock
settle_apply h d =
    if d.count == 0 then hide_pending_apply_dock d else set_pending_apply_loading h false none d

-- A count that is none hides the dock, as 0 does.
unfoldable pub on_commit_answer : Here → Answer → Dock → Outcome
on_commit_answer h fails d = (settle_apply h d, toast_failed ∷ [])
on_commit_answer h accepted d = quiet d
on_commit_answer h (result c failed applied) d = (
  settle_apply h (update_pending_counter h (or_missing (remaining_manual_edit_count c) 0) d),
  if failed == 0
      then (if applied == 0 then toast_nothing ∷ [] else toast_applied applied ∷ [])
      else toast_partly applied ∷ [],
)

-- The trash button, and the answer to its request.
unfoldable pub on_pending_trash_click : Bool → Dock → Outcome
on_pending_trash_click agrees d =
    if d.count == 0 || d.in_flight || not agrees then quiet d else (d, post_discard ∷ [])

unfoldable pub on_discard_answer : Here → Bool → Dock → Outcome
on_discard_answer h succeeds d =
    if succeeds
    then (update_pending_counter h 0 d, toast_discarded ∷ [])
    else (d, toast_failed ∷ [])

-- The two buttons of a decision, and the answers to their requests.
unfoldable pub on_pending_keep_fixing_click : Here → Dock → Outcome
on_pending_keep_fixing_click h d =
    let (storage, stored) = read_stored_manual_apply_state h d.storage in
    let d' = record d { storage = storage } in
    if or_count d.count (count_in stored) == 0
    then quiet d'
    else (update_manual_apply_repair_state h first_repair repairing d', post_repair ∷ [])

-- The stored state that is handed on as the repair has none of a repair's fields.
unfoldable pub on_repair_answer : Here → Bool → ℕ → Dock → Outcome
on_repair_answer h succeeds count d =
    if succeeds
    then quiet (record d { keep_fixing_shown = false; rollback_shown = false; trash_shown = true })
    else (show_manual_apply_decision h (counts count) none d, toast_repair_failed ∷ [])

unfoldable pub on_pending_rollback_click : Bool → Dock → Outcome
on_pending_rollback_click agrees d = if agrees then (d, post_rollback ∷ []) else quiet d

-- The result's remaining count.
unfoldable pub on_rollback_answer : Here → Option Field → Dock → Outcome
on_rollback_answer h none d = (d, toast_rollback_failed ∷ [])
on_rollback_answer h (some n) d = (
  update_pending_counter h (or_missing (number_or_null n) 0)
      (record d { storage = clear_stored_manual_apply_state d.storage }),
  toast_rolled_back ∷ [],
)

-- All that can happen to the dock, each at its time.
pub data Event : Type 0 where
  message : Message → Event
  pending_count : Option Field → Event
  pill_click trash_click rollback_click : Bool → Event
  keep_fixing_click : Event
  commit_answer : Answer → Event
  discard_answer : Bool → Event
  repair_answer : Bool → ℕ → Event
  rollback_answer : Option Field → Event

unfoldable pub step : Here → Event → Dock → Dock
step h (message m) d = (handle_manual_edit_activity h m d).0
step h (pending_count n) d = on_pending_count h n d
step h (pill_click agrees) d = (on_pending_pill_click h agrees d).0
step h (trash_click agrees) d = (on_pending_trash_click agrees d).0
step h (rollback_click agrees) d = (on_pending_rollback_click agrees d).0
step h keep_fixing_click d = (on_pending_keep_fixing_click h d).0
step h (commit_answer a) d = (on_commit_answer h a d).0
step h (discard_answer succeeds) d = (on_discard_answer h succeeds d).0
step h (repair_answer succeeds count) d = (on_repair_answer h succeeds count d).0
step h (rollback_answer n) d = (on_rollback_answer h n d).0

unfoldable pub run : List (Here × Event) → Dock → Dock
run [] d = d
run ((h, e) ∷ es) d = run es (step h e d)

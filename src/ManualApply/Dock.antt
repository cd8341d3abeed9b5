-- ===== src/ManualApply/Dock.antt =====
-- The dock of the staged edits: its button, and what it shows while an apply runs. The styles that
-- follow from what is modelled (cursor, opacity, filter) are left out, and so are the refresh of
-- the other controls and the animation.
use ar_automation_agent.Prelude.{
  ℕ, ◌-◌, ◌+◌, min, Bool, true, false, not, Option, none, some, if◌then◌else◌, ◌==◌,
}
use ar_automation_agent.ManualApply.Stored.{
  Phase, applying, verifying, Applied, Storage, Here, Label, or_count, or_missing,
  clear_stored_manual_apply_state, read_stored_manual_apply_state, store_manual_apply_state,
  should_resume_manual_apply_loading, pending_apply_label, manual_apply_loading_text,
}

-- `built` is false until the elements of the dock are made. `count` is the button's data.
pub record Dock : Type 0 where
  pub built : Bool
  pub in_flight : Bool
  pub storage : Storage
  pub count : ℕ
  pub dock_shown : Bool
  pub pill_shown : Bool
  pub pill_disabled : Bool
  pub busy : Bool
  pub label : Label
  pub count_text : ℕ
  pub count_shown : Bool
  pub spinner_shown : Bool
  pub trash_shown : Bool
  pub trash_disabled : Bool
  pub keep_fixing_shown : Bool
  pub rollback_shown : Bool

unfoldable pub hide_pending_apply_dock : Dock → Dock
hide_pending_apply_dock d =
    let cleared = clear_stored_manual_apply_state d.storage in
    if d.built
    then record {
      built = true;
      in_flight = false;
      storage = cleared;
      count = 0;
      dock_shown = false;
      pill_shown = false;
      pill_disabled = false;
      busy = false;
      label = pending_apply_label 0;
      count_text = 0;
      count_shown = true;
      spinner_shown = false;
      trash_shown = false;
      trash_disabled = false;
      keep_fixing_shown = false;
      rollback_shown = false;
    }
    else record d { in_flight = false; storage = cleared }

abbrev pub same : Applied → Applied
same a = a

-- The two halves of `setPendingApplyLoading`, for `loading === true` and for any other.
unfoldable pub start_loading : Here → ℕ → Dock → Dock
start_loading h count d =
    let stored = store_manual_apply_state h count same d.storage in
    let (storage, label) = manual_apply_loading_text h count stored in
    record d {
      in_flight = true;
      storage = storage;
      spinner_shown = true;
      label = label;
      count_shown = false;
      pill_disabled = true;
      busy = true;
      trash_disabled = true;
      keep_fixing_shown = false;
      rollback_shown = false;
      trash_shown = true;
    }

unfoldable pub stop_loading : ℕ → Dock → Dock
stop_loading count d = record d {
  in_flight = false;
  storage = clear_stored_manual_apply_state d.storage;
  spinner_shown = false;
  label = pending_apply_label count;
  count_shown = true;
  pill_disabled = false;
  busy = false;
  trash_disabled = false;
}

-- A count that is missing or 0 is the button's.
unfoldable pub set_pending_apply_loading : Here → Bool → Option ℕ → Dock → Dock
set_pending_apply_loading h loading count d =
    if not d.built
    then d
    else let current = or_missing count d.count in
      if loading then start_loading h current d else stop_loading current d

abbrev pub counted : ℕ → Dock → Dock
counted count d = record d {
  label = pending_apply_label count;
  count_text = count;
  pill_shown = true;
  trash_shown = true;
  dock_shown = true;
  count = count;
}

-- The storage is asked only if no apply is in flight.
unfoldable pub update_pending_counter : Here → ℕ → Dock → Dock
update_pending_counter h count d =
    if not d.built
    then d
    else if count == 0
    then hide_pending_apply_dock d
    else let d' = counted count d in
      if d'.in_flight
      then set_pending_apply_loading h true (some count) d'
      else let (storage, resumes) = should_resume_manual_apply_loading h count d'.storage in
        let d'' = record d' { storage = storage } in
        if resumes then set_pending_apply_loading h true (some count) d'' else d''

-- A number of a message: missing, null, a count, or what is no number.
pub data Field : Type 0 where
  missing null other : Field
  counts : ℕ → Field

-- `numberOrNull(v)`: null is the number 0 to JavaScript.
unfoldable pub number_or_null : Field → Option ℕ
number_or_null null = some 0
number_or_null (counts n) = some n
number_or_null _ = none

-- `a || b` of two fields.
abbrev pub or_field : Field → Field → Field
or_field (counts n) b = if n == 0 then b else counts n
or_field other b = other
or_field _ b = b

pub record Chunk : Type 0 where
  pub total_op_count : Field
  pub op_count : Field

pub record Repair : Type 0 where
  pub attempt : Field
  pub attempts : Field
  pub max_attempts : Field

abbrev pub total_in : Option Applied → ℕ → ℕ
total_in none fallback = fallback
total_in (some a) fallback = or_count a.total_ops (or_count a.count fallback)

abbrev pub completed_in : Option Applied → ℕ
completed_in none = 0
completed_in (some a) = a.completed_ops

abbrev pub count_in : Option Applied → ℕ
count_in none = 0
count_in (some a) = a.count

abbrev pub progressed : ℕ → ℕ → Applied → Applied
progressed total completed a = record a {
  total_ops = total;
  completed_ops = completed;
  remaining_count = total - completed;
  phase = if total - completed == 0 then verifying else applying;
}

unfoldable pub update_manual_apply_progress_from_chunk : Here → Chunk → Dock → Dock
update_manual_apply_progress_from_chunk h c d =
    if not d.in_flight
    then d
    else let (storage, stored) = read_stored_manual_apply_state h d.storage in
      let total = or_missing (number_or_null c.total_op_count) (total_in stored d.count) in
      let completed = min total (completed_in stored + or_missing (number_or_null c.op_count) 0) in
      let d' = record d {
        storage =
            store_manual_apply_state h (or_count (count_in stored) total)
              (progressed total completed) storage;
      } in
      set_pending_apply_loading h true (some (total - completed)) d'

abbrev pub repaired : Phase → ℕ → ℕ → Applied → Applied
repaired phase attempt max_attempts a = record a {
  phase = phase;
  repair_attempt = some attempt;
  repair_max_attempts = some max_attempts;
}

abbrev pub attempt_of : Repair → ℕ
attempt_of r = or_missing (number_or_null (or_field r.attempt r.attempts)) 1

abbrev pub max_attempts_of : Repair → ℕ
max_attempts_of r = or_missing (number_or_null r.max_attempts) 3

unfoldable pub update_manual_apply_repair_state : Here → Repair → Phase → Dock → Dock
update_manual_apply_repair_state h r phase d =
    let (storage, stored) = read_stored_manual_apply_state h d.storage in
    let count = or_count d.count (count_in stored) in
    if count == 0
    then record d { storage = storage }
    else let d' = record d {
      storage =
          store_manual_apply_state h count (repaired phase (attempt_of r) (max_attempts_of r))
            storage;
    } in
      set_pending_apply_loading h true (some count) d'

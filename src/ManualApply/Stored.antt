-- ===== src/ManualApply/Stored.antt =====
-- The state of a running apply in the page's `sessionStorage`.
use Prim.Native.String.{String}
use text.Mathlib.Text.{◌==◌ as str_eq}
use ar_automation_agent.Prelude.{
  ℕ, zero, suc, ◌+◌, ◌*◌, Bool, true, false, not, ◌||◌, ◌&&◌, Option, none, some, if◌then◌else◌,
  ltb, ◌==◌,
}

pub data Phase : Type 0 where
  applying verifying repairing repair_decision : Phase

-- Counts are natural numbers and times are milliseconds.
pub record Applied : Type 0 where
  pub count : ℕ
  pub total_ops : ℕ
  pub completed_ops : ℕ
  pub remaining_count : ℕ
  pub phase : Phase
  pub started_at : ℕ
  pub repair_attempt : Option ℕ
  pub repair_max_attempts : Option ℕ

-- With what `writeManualApplyState` adds.
pub record Entry : Type 0 where
  pub applied : Applied
  pub page_url : String
  pub updated_at : ℕ
  pub expires_at : ℕ

-- The entry under the page's key. A storage that is not available throws at each call.
pub record Storage : Type 0 where
  pub entry : Option Entry
  pub throws : Bool

-- Where and when the code runs.
pub record Here : Type 0 where
  pub pathname : String
  pub now : ℕ

-- A quarter of an hour.
abbrev pub manual_apply_state_ttl_ms : ℕ
manual_apply_state_ttl_ms = 15 * 60 * 1000

-- `a || b` of numbers.
abbrev pub or_count : ℕ → ℕ → ℕ
or_count zero b = b
or_count (suc a) b = suc a

-- `Number(v) || b` of a number that may be missing.
abbrev pub or_missing : Option ℕ → ℕ → ℕ
or_missing none b = b
or_missing (some a) b = or_count a b

unfoldable pub clear_stored_manual_apply_state : Storage → Storage
clear_stored_manual_apply_state s = if s.throws then s else record s { entry = none }

-- An entry of another page, or one that has run out, is removed.
abbrev pub is_stale : Here → Entry → Bool
is_stale h e = not (str_eq e.page_url h.pathname) || ltb e.expires_at h.now

unfoldable pub read_stored_manual_apply_state : Here → Storage → Storage × Option Applied
read_stored_manual_apply_state h s = if s.throws then (s, none) else elim s.entry [
  | none ↦ (s, none)
  | some e ↦ if is_stale h e then (record s { entry = none }, none) else (s, some e.applied)
]

unfoldable pub write_manual_apply_state : Here → Applied → Storage → Storage
write_manual_apply_state h a s = if s.throws then s else record s {
  entry = some (record {
    applied = a;
    page_url = h.pathname;
    updated_at = h.now;
    expires_at = h.now + manual_apply_state_ttl_ms;
  });
}

-- `existing || {}`: each field of what is written, from the one that is stored. The fields of a
-- repair are written by a patch alone.
abbrev pub total_of : Option Applied → ℕ → ℕ
total_of none count = count
total_of (some a) count = or_count a.total_ops (or_count a.count count)

unfoldable pub renewed : Here → Option Applied → ℕ → Applied
renewed h none count = record {
  count = count;
  total_ops = count;
  completed_ops = 0;
  remaining_count = count;
  phase = applying;
  started_at = h.now;
  repair_attempt = none;
  repair_max_attempts = none;
}
renewed h (some a) count =
    let total = total_of (some a) count in
    record {
      count = or_count a.count (or_count count total);
      total_ops = or_count total count;
      completed_ops = a.completed_ops;
      remaining_count = a.remaining_count;
      phase = a.phase;
      started_at = or_count a.started_at h.now;
      repair_attempt = none;
      repair_max_attempts = none;
    }

-- `patch` gives some of the fields anew.
unfoldable pub store_manual_apply_state : Here → ℕ → (Applied → Applied) → Storage → Storage
store_manual_apply_state h count patch s =
    let (s', existing) = read_stored_manual_apply_state h s in
    if total_of existing count == 0 && count == 0
    then s'
    else write_manual_apply_state h (patch (renewed h existing count)) s'

unfoldable pub reset_manual_apply_progress : Here → ℕ → Storage → Storage
reset_manual_apply_progress h count s =
    if count == 0 then s else write_manual_apply_state h (renewed h none count) s

unfoldable pub should_resume_manual_apply_loading : Here → ℕ → Storage → Storage × Bool
should_resume_manual_apply_loading h count s =
    if count == 0
    then (s, false)
    else let (s', existing) = read_stored_manual_apply_state h s in
      (s', elim existing [ none ↦ false | some a ↦ true ])

-- The texts of the button.
pub data Label : Type 0 where
  apply_copy_edit apply_copy_edits needs_attention verifying_copy_edits : Label
  fixing_apply_issue : ℕ → ℕ → Label
  applying_copy_edits : ℕ → Label

unfoldable pub pending_apply_label : ℕ → Label
pending_apply_label count = if count == 1 then apply_copy_edit else apply_copy_edits

abbrev pub applying_text : ℕ → Label
applying_text n = if n == 0 then verifying_copy_edits else applying_copy_edits n

unfoldable pub loading_label : ℕ → Option Applied → Label
loading_label fallback none = applying_text fallback
loading_label fallback (some a) = elim a.phase [
  | repair_decision ↦ needs_attention
  | repairing ↦
      fixing_apply_issue (or_missing a.repair_attempt 1) (or_missing a.repair_max_attempts 3)
  | verifying ↦ verifying_copy_edits
  | applying ↦ applying_text a.remaining_count
]

unfoldable pub manual_apply_loading_text : Here → ℕ → Storage → Storage × Label
manual_apply_loading_text h fallback s =
    let (s', existing) = read_stored_manual_apply_state h s in (s', loading_label fallback existing)

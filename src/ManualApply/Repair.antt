-- ===== src/ManualApply/Repair.antt =====
-- What the user sees of a repair: two faults of the dock.
use ar_automation_agent.Prelude.{
  ℕ, ◌+◌, ◌≡◌, refl, ◌∙◌, Bool, true, false, Option, some, arith, if_cases, ◌==◌, not, ◌&&◌,
}
use text.Mathlib.TextPositions.{eq_refl}
use ar_automation_agent.ManualApply.Stored.{
  Applied, repairing, Storage, Here, or_missing, or_count, read_stored_manual_apply_state,
  clear_stored_manual_apply_state, write_manual_apply_state, store_manual_apply_state, renewed,
  total_of, loading_label, manual_apply_loading_text, fixing_apply_issue, manual_apply_state_ttl_ms,
  Entry, is_stale,
}
use ar_automation_agent.ManualApply.Dock.{
  Dock, set_pending_apply_loading, start_loading, same, update_pending_counter, Field, counts,
  Repair, update_manual_apply_repair_state, repaired, attempt_of, max_attempts_of, count_in,
  number_or_null,
}
use ar_automation_agent.ManualApply.Events.{show_manual_apply_decision, on_rollback_answer}
use ar_automation_agent.ManualApply.Freeze.{resume-clear}

abbrev Reads : Here → Storage → Option Applied → Type 0
Reads h s e = (read_stored_manual_apply_state h s).1 ≡ e

throws-read : (h : Here) (s : Storage) → (read_stored_manual_apply_state h s).0.throws ≡ s.throws
unfolding read_stored_manual_apply_state
throws-read h s = ground arith

abbrev entry_of : Here → Applied → Entry
entry_of h a = record {
  applied = a;
  page_url = h.pathname;
  updated_at = h.now;
  expires_at = h.now + manual_apply_state_ttl_ms;
}

-- A storage that does not throw gives back what was written.
read-write :
    (h : Here) (a : Applied) (s : Storage)
    → s.throws ≡ false
    → Reads h (write_manual_apply_state h a s) (some a)
unfolding read_stored_manual_apply_state write_manual_apply_state
read-write h a s t =
    let never : is_stale h (entry_of h a) ≡ false = ground (arith, eq_refl h.pathname) in
    rw (t, never)

throws-store :
    (h : Here) (count : ℕ) (patch : Applied → Applied) (s : Storage)
    → (store_manual_apply_state h count patch s).throws ≡ s.throws
unfolding store_manual_apply_state write_manual_apply_state
throws-store h count patch s =
    let (s', e) = read_stored_manual_apply_state h s in
    if_cases Kept (total_of e count == 0 && count == 0) _ _ (λ _. throws-read h s)
      (λ _. if_cases Kept s'.throws _ _ (λ _. throws-read h s) (λ _. throws-read h s))
  where
    Kept : Storage → Type 0
    Kept x = x.throws ≡ s.throws

read-store :
    (h : Here) (count : ℕ) (patch : Applied → Applied) (s : Storage)
    → s.throws ≡ false
    → (count == 0) ≡ false
    → Reads h
        (store_manual_apply_state h count patch s)
        (some (patch (renewed h (read_stored_manual_apply_state h s).1 count)))
unfolding store_manual_apply_state
read-store h count patch s t c =
    let (s', e) = read_stored_manual_apply_state h s in
    let written : (total_of e count == 0 && count == 0) ≡ false = ground arith in
    rw written (read-write h (patch (renewed h e count)) s' (throws-read h s ∙ t))

renewed-repair :
    (h : Here) (a : Applied) (count fallback : ℕ)
    → a.phase ≡ repairing
    → loading_label fallback (some (renewed h (some a) count)) ≡ fixing_apply_issue 1 3
unfolding loading_label renewed
renewed-repair h a count fallback p = rw p

start_loading-label :
    (h : Here) (count : ℕ) (d : Dock) (a : Applied)
    → d.storage.throws ≡ false
    → (count == 0) ≡ false
    → Reads h d.storage (some a)
    → a.phase ≡ repairing
    → (start_loading h count d).label ≡ fixing_apply_issue 1 3
unfolding start_loading manual_apply_loading_text
start_loading-label h count d a t c e p =
    rw (read-store h count same d.storage t c, e) (renewed-repair h a count count p)

-- The attempt of a repair is never shown: whichever attempt of however many the message names, the
-- button says that the first of three is running. What stores it is written over at once by a
-- store that leaves it out. The dock is built and counts edits, and its storage does not throw.
pub update_manual_apply_repair_state-label :
    (h : Here) (r : Repair) (d : Dock)
    → d.built ≡ true
    → (d.count == 0) ≡ false
    → d.storage.throws ≡ false
    → (update_manual_apply_repair_state h r repairing d).label ≡ fixing_apply_issue 1 3
unfolding update_manual_apply_repair_state set_pending_apply_loading
update_manual_apply_repair_state-label h r d b c t =
    let (s, e) = read_stored_manual_apply_state h d.storage in
    let count = or_count d.count (count_in e) in
    let positive : (count == 0) ≡ false = ground arith in
    let patch = repaired repairing (attempt_of r) (max_attempts_of r) in
    let stored = store_manual_apply_state h count patch s in
    let t' = throws-read h d.storage ∙ t in
    let current : (or_missing (some count) d.count == 0) ≡ false = ground arith in
    rw positive (
      rw b (
        start_loading-label h (or_missing (some count) d.count)
          (record d { built = true; storage = stored })
          (patch (renewed h (read_stored_manual_apply_state h s).1 count))
          (throws-store h count patch s ∙ t') current (read-store h count patch s t' positive)
          refl))

-- The buttons of a decision.
pub record IsDeciding (d : Dock) : Type 0 where
  pub idle : d.in_flight ≡ false
  pub disabled : d.pill_disabled ≡ true
  pub keep_fixing : d.keep_fixing_shown ≡ true
  pub rollback : d.rollback_shown ≡ true

decision-IsDeciding :
    (h : Here) (remaining : Field) (r : Option Repair) (d : Dock)
    → d.built ≡ true
    → IsDeciding (show_manual_apply_decision h remaining r d)
      × ((show_manual_apply_decision h remaining r d).built ≡ true)
unfolding show_manual_apply_decision
decision-IsDeciding h remaining r d b =
    rw b (record { idle = refl; disabled = refl; keep_fixing = refl; rollback = refl }, refl)

counter-IsDeciding :
    (h : Here) (n : ℕ) (d : Dock) (s : Storage)
    → IsDeciding d
    → d.built ≡ true
    → (n == 0) ≡ false
    → IsDeciding
        (update_pending_counter h n (record d { storage = clear_stored_manual_apply_state s }))
unfolding update_pending_counter
counter-IsDeciding h n d s k b c =
    if_cases IsDeciding (not d.built) _ _ (λ e. absurd (not-both b e))
      λ _.
        if_cases IsDeciding (n == 0) _ _ (λ e. absurd (ground (arith, e, c)))
          λ _.
            if_cases IsDeciding d.in_flight _ _ (λ e. absurd (ground (arith, e, k.idle)))
              λ _. rw (resume-clear h n s) (record {
                idle = k.idle;
                disabled = k.disabled;
                keep_fixing = k.keep_fixing;
                rollback = k.rollback;
              })
  where
    not-both : {x : Bool} → x ≡ true → not x ≡ true → ⊥
    not-both e f = ground (arith, e, f)

-- A rollback that leaves edits leaves the decision on the screen too: after a decision was asked
-- for and the rollback has succeeded with some edits staged, no apply is in flight, yet the button
-- is disabled and both buttons of the decision are shown.
pub on_rollback_answer-IsDeciding :
    (h h' : Here) (remaining : Field) (r : Option Repair) (n : ℕ) (d : Dock)
    → d.built ≡ true
    → (n == 0) ≡ false
    → IsDeciding
        (on_rollback_answer h' (some (counts n)) (show_manual_apply_decision h remaining r d)).0
unfolding on_rollback_answer number_or_null
on_rollback_answer-IsDeciding h h' remaining r n d b c =
    let asked = show_manual_apply_decision h remaining r d in
    let (k, b') = decision-IsDeciding h remaining r d b in
    counter-IsDeciding h' (or_count n 0) asked asked.storage k b' (ground arith)

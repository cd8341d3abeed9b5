-- ===== src/ManualApply/Freeze.antt =====
-- The dock does not stay frozen when an apply ends.
use ar_automation_agent.Prelude.{
  ℕ, ◌≡◌, refl, Bool, true, false, Option, none, some, arith, Bool-cases, inl, inr, if_cases, ◌==◌,
  not, ◌∙◌, sym, ◌≢◌,
}
use ar_automation_agent.ManualApply.Stored.{
  Storage, Here, or_missing, read_stored_manual_apply_state, clear_stored_manual_apply_state,
  should_resume_manual_apply_loading,
}
use ar_automation_agent.ManualApply.Dock.{
  Dock, set_pending_apply_loading, start_loading, stop_loading, hide_pending_apply_dock,
  update_pending_counter, counted, Field, Repair,
}
use ar_automation_agent.ManualApply.Events.{
  Counts, remaining_manual_edit_count, on_commit_done, settle_apply, on_commit_answer, Answer,
  accepted, fails, result,
}

-- What is cleared is not read, and where clearing throws reading does too.
read-clear :
    (h : Here) (s : Storage)
    → (read_stored_manual_apply_state h (clear_stored_manual_apply_state s)).1 ≡ none
unfolding read_stored_manual_apply_state clear_stored_manual_apply_state
read-clear h s = ground arith

pub resume-clear :
    (h : Here) (n : ℕ) (s : Storage)
    → (should_resume_manual_apply_loading h n (clear_stored_manual_apply_state s)).1 ≡ false
unfolding should_resume_manual_apply_loading
resume-clear h n s = elim (Bool-cases (n == 0)) [ inl z ↦ rw z | inr z ↦ rw (z, read-clear h s) ]

-- The button is enabled and no apply is taken to be in flight.
pub record IsReleased (d : Dock) : Type 0 where
  pub idle : d.in_flight ≡ false
  pub enabled : d.pill_disabled ≡ false
  pub trash_enabled : d.trash_disabled ≡ false

hide-IsReleased : (d : Dock) → d.built ≡ true → IsReleased (hide_pending_apply_dock d)
unfolding hide_pending_apply_dock
hide-IsReleased d b = rw b (record { idle = refl; enabled = refl; trash_enabled = refl })

stop-IsReleased :
    (h : Here) (d : Dock) → d.built ≡ true → IsReleased (set_pending_apply_loading h false none d)
unfolding set_pending_apply_loading stop_loading
stop-IsReleased h d b = rw b (record { idle = refl; enabled = refl; trash_enabled = refl })

counter-stop-IsReleased :
    (h : Here) (n : ℕ) (d : Dock)
    → d.built ≡ true
    → IsReleased (update_pending_counter h n (stop_loading d.count d))
unfolding update_pending_counter stop_loading
counter-stop-IsReleased h n d b = rw b (
    if_cases IsReleased (n == 0) _ _
      (λ _. hide-IsReleased (stop_loading d.count (record d { built = true })) refl)
      λ _.
        rw (resume-clear h n d.storage)
          (record { idle = refl; enabled = refl; trash_enabled = refl }))

-- When an apply is reported as done and asks for no decision, the dock is released: though edits
-- may remain, though the apply was in flight, and whatever was stored or can be stored of it.
pub on_commit_done-IsReleased :
    (h : Here) (c : Counts) (r : Option Repair) (failed applied cleared : Field) (d : Dock)
    → d.built ≡ true
    → IsReleased (on_commit_done h false c r failed applied cleared d).0
unfolding on_commit_done set_pending_apply_loading
on_commit_done-IsReleased h c r failed applied cleared d b = rw b (
    counter-stop-IsReleased h (or_missing (remaining_manual_edit_count c) 0)
      (record d { built = true }) refl)

settle-IsReleased : (h : Here) (d : Dock) → d.built ≡ true → IsReleased (settle_apply h d)
unfolding settle_apply
settle-IsReleased h d b =
    if_cases IsReleased (d.count == 0) _ _ (λ _. hide-IsReleased d b) (λ _. stop-IsReleased h d b)

built-set_loading :
    (h : Here) (b : Bool) (c : Option ℕ) (d : Dock)
    → (set_pending_apply_loading h b c d).built ≡ d.built
unfolding set_pending_apply_loading start_loading stop_loading
built-set_loading h b c d = ground arith

built-counter : (h : Here) (n : ℕ) (d : Dock) → (update_pending_counter h n d).built ≡ d.built
unfolding update_pending_counter hide_pending_apply_dock
built-counter h n d =
    if_cases Kept (not d.built) _ _ (λ _. refl)
      λ _.
        if_cases Kept (n == 0) _ _ (λ _. if_cases Kept d.built _ _ sym (λ _. refl))
          λ _.
            if_cases Kept d.in_flight _ _ (λ _. built-set_loading h true (some n) (counted n d))
              λ _.
                if_cases Kept (should_resume_manual_apply_loading h n d.storage).1 _ _
                  (λ _. built-set_loading h true (some n) _) (λ _. refl)
  where
    Kept : Dock → Type 0
    Kept x = x.built ≡ d.built

-- The handler of the button always releases the dock when its request fails or brings a result;
-- only an apply that runs on, with messages to follow, stays in flight.
pub on_commit_answer-IsReleased :
    (h : Here) (a : Answer) (d : Dock)
    → a ≢ accepted
    → d.built ≡ true
    → IsReleased (on_commit_answer h a d).0
unfolding on_commit_answer
on_commit_answer-IsReleased h accepted d ne b = absurd (ne refl)
on_commit_answer-IsReleased h fails d ne b = settle-IsReleased h d b
on_commit_answer-IsReleased h (result c failed applied) d ne b =
    settle-IsReleased h _ (built-counter h (or_missing (remaining_manual_edit_count c) 0) d ∙ b)

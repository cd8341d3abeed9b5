-- ===== src/ManualApply/Tests.antt =====
-- Runs of the dock, and its theorems at concrete inputs.
use ar_automation_agent.Prelude.{ℕ, ◌≡◌, refl, true, false, none, some, List, [], ◌∷◌}
use ar_automation_agent.ManualApply.Stored.{
  repairing, Storage, Here, apply_copy_edits, fixing_apply_issue, read_stored_manual_apply_state,
  write_manual_apply_state, store_manual_apply_state, renewed, reset_manual_apply_progress,
  loading_label, manual_apply_loading_text, applying_copy_edits,
}
use ar_automation_agent.ManualApply.Dock.{
  Dock, missing, counts, Repair, start_loading, set_pending_apply_loading, number_or_null,
  update_manual_apply_progress_from_chunk, update_manual_apply_repair_state,
}
use ar_automation_agent.ManualApply.Events.{
  Counts, Message, apply_reply_received, fails, Event, message, pill_click, step, run,
  on_commit_done, on_commit_answer, on_rollback_answer, show_manual_apply_decision, on_apply_reply,
  handle_manual_edit_activity, manual_edit_event_for_current_page, on_pending_pill_click,
}
use ar_automation_agent.ManualApply.Progress.{IsGood}
use ar_automation_agent.ManualApply.Invariant.{run-IsGood}
use ar_automation_agent.ManualApply.Freeze.{
  IsReleased, on_commit_done-IsReleased, on_commit_answer-IsReleased,
}
use ar_automation_agent.ManualApply.Repair.{
  IsDeciding, update_manual_apply_repair_state-label, on_rollback_answer-IsDeciding,
}

abbrev at : ℕ → Here
at now = record { pathname = "/pricing"; now = now }

abbrev storage : Storage
storage = record { entry = none; throws = false }

-- Four edits are staged.
abbrev staged : Dock
staged = record {
  built = true;
  in_flight = false;
  storage = storage;
  count = 4;
  dock_shown = true;
  pill_shown = true;
  pill_disabled = false;
  busy = false;
  label = apply_copy_edits;
  count_text = 4;
  count_shown = true;
  spinner_shown = false;
  trash_shown = true;
  trash_disabled = false;
  keep_fixing_shown = false;
  rollback_shown = false;
}

abbrev two_done : Message
two_done = record {
  page_url = none;
  kind =
      apply_reply_received (some (record { total_op_count = counts 4; op_count = counts 2 })) none;
}

abbrev apply_two : List (Here × Event)
apply_two = (at 1000, pill_click true) ∷ (at 2000, message two_done) ∷ []

-- Two of the four are left.
after_two : (run apply_two staged).label ≡ applying_copy_edits 2
unfolding run step on_pending_pill_click reset_manual_apply_progress write_manual_apply_state
    renewed set_pending_apply_loading start_loading store_manual_apply_state
    read_stored_manual_apply_state manual_apply_loading_text loading_label
    handle_manual_edit_activity manual_edit_event_for_current_page on_apply_reply
    update_manual_apply_progress_from_chunk number_or_null
after_two = refl

run-IsGood_example : IsGood (run apply_two staged).storage
run-IsGood_example = run-IsGood apply_two staged tt

abbrev partly : Counts
partly = record { per_page = missing; remaining = counts 1; total = missing }

abbrev running : Dock
running = record staged { in_flight = true; pill_disabled = true; busy = true }

on_commit_done-IsReleased_example :
    IsReleased (on_commit_done (at 9) false partly none (counts 1) (counts 3) missing running).0
on_commit_done-IsReleased_example =
    on_commit_done-IsReleased (at 9) partly none (counts 1) (counts 3) missing running refl

on_commit_answer-IsReleased_example : IsReleased (on_commit_answer (at 9) fails running).0
on_commit_answer-IsReleased_example =
    on_commit_answer-IsReleased (at 9) fails running (λ e. cc) refl

abbrev second_of_five : Repair
second_of_five = record { attempt = counts 2; attempts = missing; max_attempts = counts 5 }

update_manual_apply_repair_state-label_example :
    (update_manual_apply_repair_state (at 9) second_of_five repairing running).label
    ≡ fixing_apply_issue 1 3
update_manual_apply_repair_state-label_example =
    update_manual_apply_repair_state-label (at 9) second_of_five running refl refl refl

on_rollback_answer-IsDeciding_example :
    IsDeciding
      (on_rollback_answer
        (at 9)
        (some (counts 4))
        (show_manual_apply_decision (at 5) (counts 4) (some second_of_five) running)).0
on_rollback_answer-IsDeciding_example =
    on_rollback_answer-IsDeciding (at 5) (at 9) (counts 4) (some second_of_five) 4 running refl refl

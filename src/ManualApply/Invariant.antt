-- ===== src/ManualApply/Invariant.antt =====
-- The stored progress of an apply is consistent after any sequence of events.
use ar_automation_agent.Prelude.{
  ℕ, ◌+◌, ◌-◌, ◌≤◌, ◌<◌, min, ◌≡◌, refl, Bool, true, false, Option, none, some, List, [], ◌∷◌,
  arith, if◌then◌else◌, Bool-cases, inl, inr, if_cases, ◌==◌, ==_iff, subst, sym, ap, ◌∙◌, ◌&&◌,
  not, ◌||◌,
}
use ar_automation_agent.ManualApply.Stored.{
  Phase, Applied, Storage, Here, or_count, or_missing, read_stored_manual_apply_state,
  store_manual_apply_state, should_resume_manual_apply_loading, reset_manual_apply_progress,
  repair_decision, repairing,
}
use ar_automation_agent.ManualApply.Dock.{
  Dock, set_pending_apply_loading, counted, update_pending_counter, Chunk, Repair, Field,
  number_or_null, progressed, repaired, completed_in, total_in, count_in,
  update_manual_apply_progress_from_chunk, update_manual_apply_repair_state, attempt_of,
  max_attempts_of,
}
use ar_automation_agent.ManualApply.Events.{
  show_manual_apply_decision, given, first_repair, decision_attempt_of, on_stashed,
  on_commit_started, on_apply_reply, on_commit_done, on_kind, handle_manual_edit_activity,
  on_pending_count, on_pending_pill_click, settle_apply, on_commit_answer, on_pending_trash_click,
  on_discard_answer, on_pending_keep_fixing_click, on_repair_answer, on_pending_rollback_click,
  on_rollback_answer, Event, step, run, Counts, remaining_manual_edit_count, Answer, accepted,
  fails, result, manual_edit_event_for_current_page, Kind, stashed, commit_started,
  apply_reply_received, apply_dispatched, repair_needs_decision, repair_rollback_done, commit_done,
  commit_failed, discarded, message, pending_count, pill_click, trash_click, rollback_click,
  keep_fixing_click, commit_answer, discard_answer, repair_answer, rollback_answer, stash_step,
  chunk_step, repair_step, Outcome,
}
use ar_automation_agent.ManualApply.Progress.{
  IsGood, AppliedIsConsistent, DockIsGood, Keeps, read-IsGood, store-IsGood, clear-IsGood,
  reset-IsGood, should_resume-IsGood, set_loading-IsGood, hide-IsGood, store-none, read-again,
}

resumed-IsGood :
    (h : Here) (count : ℕ) (d : Dock) (b : Bool)
    → DockIsGood d
    → DockIsGood (if b then set_pending_apply_loading h true (some count) d else d)
resumed-IsGood h count d true g = set_loading-IsGood h true (some count) d g
resumed-IsGood h count d false g = g

update_counter-IsGood :
    (h : Here) (count : ℕ) (d : Dock) → DockIsGood d → DockIsGood (update_pending_counter h count d)
unfolding update_pending_counter
update_counter-IsGood h count d g =
    if_cases DockIsGood (not d.built) _ _ (λ _. g)
      λ _.
        if_cases DockIsGood (count == 0) _ _ (λ _. hide-IsGood d g)
          λ _.
            if_cases DockIsGood d.in_flight _ _
              (λ _. set_loading-IsGood h true (some count) (counted count d) g)
              λ _.
                resumed-IsGood h count _ (should_resume_manual_apply_loading h count d.storage).1
                  (should_resume-IsGood h count d.storage g)

progressed-Keeps :
    (total completed : ℕ) → 0 < total → completed ≤ total → Keeps (progressed total completed)
progressed-Keeps total completed p q a c = (p, omega arith)

total_in-zero :
    (o : Option ℕ) (e : Option Applied) (n : ℕ)
    → AppliedIsConsistent e
    → or_missing o (total_in e n) ≡ 0
    → (e ≡ none) × (or_count (count_in e) 0 ≡ 0)
total_in-zero o none n c z = (refl, refl)
total_in-zero o (some a) n c z = absurd (ground arith)

-- Loading after a store is good if what is stored is.
loading-IsGood :
    (h : Here) (count : ℕ) (d : Dock) (s : Storage)
    → IsGood s
    → DockIsGood (set_pending_apply_loading h true (some count) (record d { storage = s }))
loading-IsGood h count d s g = set_loading-IsGood h true (some count) (record d { storage = s }) g

chunk_stored-IsGood :
    (h : Here) (o : Option ℕ) (e : Option Applied) (n completed : ℕ) (s : Storage)
    → (read_stored_manual_apply_state h s).1 ≡ e
    → AppliedIsConsistent e
    → IsGood s
    → completed ≤ or_missing o (total_in e n)
    → IsGood (
        store_manual_apply_state h
          (or_count (count_in e) (or_missing o (total_in e n)))
          (progressed (or_missing o (total_in e n)) completed)
          s)
chunk_stored-IsGood h o e n completed s r c g le =
    let total = or_missing o (total_in e n) in
    elim (Bool-cases (total == 0)) [
      | inr z ↦
          store-IsGood h (or_count (count_in e) total) (progressed total completed) s
            (progressed-Keeps total completed (ground arith) le) g
      | inl z ↦
          let t : total ≡ 0 = (==_iff total 0).0 z in
          let (gone, nought) = total_in-zero o e n c t in
          subst (λ k. IsGood (store_manual_apply_state h k (progressed total completed) s))
            (sym nought ∙ ap (or_count (count_in e)) (sym t))
            (store-none h (progressed total completed) s (r ∙ gone) g)
    ]

chunk-IsGood :
    (h : Here) (c : Chunk) (d : Dock)
    → DockIsGood d
    → DockIsGood (update_manual_apply_progress_from_chunk h c d)
unfolding update_manual_apply_progress_from_chunk
chunk-IsGood h c d g =
    let (s, e) = read_stored_manual_apply_state h d.storage in
    let (g', k) = read-IsGood h d.storage g in
    let total = or_missing (number_or_null c.total_op_count) (total_in e d.count) in
    let completed = min total (completed_in e + or_missing (number_or_null c.op_count) 0) in
    if_cases DockIsGood (not d.in_flight) _ _ (λ _. g)
      λ _. loading-IsGood h (total - completed) d _ (
        chunk_stored-IsGood h (number_or_null c.total_op_count) e d.count completed s
          (read-again h d.storage) k g' (omega arith))

repair-IsGood :
    (h : Here) (r : Repair) (phase : Phase) (d : Dock)
    → DockIsGood d
    → DockIsGood (update_manual_apply_repair_state h r phase d)
unfolding update_manual_apply_repair_state
repair-IsGood h r phase d g =
    let (s, e) = read_stored_manual_apply_state h d.storage in
    let (g', k) = read-IsGood h d.storage g in
    let count = or_count d.count (count_in e) in
    elim (Bool-cases (count == 0)) [
      | inl z ↦ rw z g'
      | inr z ↦ rw z (
          loading-IsGood h count d _ (
            store-IsGood h count (repaired phase (attempt_of r) (max_attempts_of r)) s (λ a c. c)
              g'))
    ]

decision-IsGood :
    (h : Here) (remaining : Field) (r : Option Repair) (d : Dock)
    → DockIsGood d
    → DockIsGood (show_manual_apply_decision h remaining r d)
unfolding show_manual_apply_decision
decision-IsGood h remaining r d g =
    let stored =
      store-IsGood h (or_count d.count (or_missing (number_or_null remaining) 0))
        (repaired repair_decision (decision_attempt_of r) (max_attempts_of (given r))) d.storage
        (λ a c. c) g in
    elim (Bool-cases d.built) [ inl b ↦ rw b stored | inr b ↦ rw b stored ]

started-IsGood :
    (h : Here) (pending : Field) (repair_only : Bool) (d : Dock)
    → DockIsGood d
    → DockIsGood (on_commit_started h pending repair_only d)
unfolding on_commit_started
started-IsGood h pending repair_only d g =
    let n = or_missing (number_or_null pending) 0 in
    let d1 = if n == 0 then d else update_pending_counter h n d in
    let d2 =
      if not repair_only && not (n == 0)
      then record d1 { storage = reset_manual_apply_progress h n d1.storage }
      else d1 in
    let g1 : DockIsGood d1 =
      if_cases DockIsGood (n == 0) _ _ (λ _. g) (λ _. update_counter-IsGood h n d g) in
    let g2 : DockIsGood d2 =
      if_cases DockIsGood (not repair_only && not (n == 0)) _ _
        (λ _. reset-IsGood h n d1.storage g1) (λ _. g1) in
    set_loading-IsGood h true (if n == 0 then none else some n) _ (
      if_cases DockIsGood repair_only _ _ (λ _. repair-IsGood h first_repair repairing d2 g2)
        (λ _. g2))

chunks-IsGood :
    (h : Here) (c : Option Chunk) (d : Dock) → DockIsGood d → DockIsGood (chunk_step h c d)
chunks-IsGood h none d g = g
chunks-IsGood h (some c) d g = chunk-IsGood h c d g

repairs-IsGood :
    (h : Here) (r : Option Repair) (d : Dock) → DockIsGood d → DockIsGood (repair_step h r d)
repairs-IsGood h none d g = g
repairs-IsGood h (some r) d g = repair-IsGood h r repairing d g

done-IsGood :
    (h : Here) (decides : Bool) (c : Counts) (r : Option Repair) (f a x : Field) (d : Dock)
    → DockIsGood d
    → DockIsGood (on_commit_done h decides c r f a x d).0
unfolding on_commit_done
done-IsGood h true c r f a x d g = decision-IsGood h c.remaining r d g
done-IsGood h false c r f a x d g =
    update_counter-IsGood h (or_missing (remaining_manual_edit_count c) 0)
      (set_pending_apply_loading h false none d) (set_loading-IsGood h false none d g)

kind-IsGood : (h : Here) (k : Kind) (d : Dock) → DockIsGood d → DockIsGood (on_kind h k d).0
unfolding on_stashed on_apply_reply
kind-IsGood h (stashed pending) d g = stash (number_or_null pending)
  where
    stash : (n : Option ℕ) → DockIsGood (stash_step h n d)
    stash none = g
    stash (some n) = update_counter-IsGood h n d g
kind-IsGood h (commit_started pending repair_only) d g = started-IsGood h pending repair_only d g
kind-IsGood h (apply_reply_received c r) d g =
    repairs-IsGood h r (chunk_step h c d) (chunks-IsGood h c d g)
kind-IsGood h (apply_dispatched r) d g = repairs-IsGood h r d g
kind-IsGood h (repair_needs_decision remaining r) d g = decision-IsGood h remaining r d g
kind-IsGood h repair_rollback_done d g = clear-IsGood d.storage g
kind-IsGood h (commit_done decides c r f a x) d g = done-IsGood h decides c r f a x d g
kind-IsGood h commit_failed d g = set_loading-IsGood h false none d g
kind-IsGood h discarded d g = g

settle-IsGood : (h : Here) (d : Dock) → DockIsGood d → DockIsGood (settle_apply h d)
unfolding settle_apply
settle-IsGood h d g =
    if_cases DockIsGood (d.count == 0) _ _ (λ _. hide-IsGood d g)
      (λ _. set_loading-IsGood h false none d g)

answer-IsGood :
    (h : Here) (a : Answer) (d : Dock) → DockIsGood d → DockIsGood (on_commit_answer h a d).0
unfolding on_commit_answer
answer-IsGood h fails d g = settle-IsGood h d g
answer-IsGood h accepted d g = g
answer-IsGood h (result c failed applied) d g =
    settle-IsGood h _ (update_counter-IsGood h (or_missing (remaining_manual_edit_count c) 0) d g)

abbrev OutcomeIsGood : Outcome → Type 0
OutcomeIsGood o = DockIsGood o.0

step-IsGood : (h : Here) (e : Event) (d : Dock) → DockIsGood d → DockIsGood (step h e d)
unfolding step handle_manual_edit_activity on_pending_count on_pending_pill_click
    on_pending_trash_click on_discard_answer on_pending_keep_fixing_click on_repair_answer
    on_pending_rollback_click on_rollback_answer
step-IsGood h (message m) d g =
    if_cases OutcomeIsGood (manual_edit_event_for_current_page h m.page_url) _ _
      (λ _. kind-IsGood h m.kind d g) (λ _. g)
step-IsGood h (pending_count none) d g = g
step-IsGood h (pending_count (some n)) d g =
    update_counter-IsGood h (or_missing (number_or_null n) 0) d g
step-IsGood h (pill_click agrees) d g =
    if_cases OutcomeIsGood (d.count == 0 || d.in_flight || not agrees) _ _ (λ _. g)
      λ _. set_loading-IsGood h true (some d.count) _ (reset-IsGood h d.count d.storage g)
step-IsGood h (trash_click agrees) d g =
    if_cases OutcomeIsGood (d.count == 0 || d.in_flight || not agrees) _ _ (λ _. g) (λ _. g)
step-IsGood h (rollback_click agrees) d g = if_cases OutcomeIsGood agrees _ _ (λ _. g) (λ _. g)
step-IsGood h keep_fixing_click d g =
    let (s, e) = read_stored_manual_apply_state h d.storage in
    let g' = (read-IsGood h d.storage g).0 in
    if_cases OutcomeIsGood (or_count d.count (count_in e) == 0) _ _ (λ _. g')
      λ _. repair-IsGood h first_repair repairing (record d { storage = s }) g'
step-IsGood h (commit_answer a) d g = answer-IsGood h a d g
step-IsGood h (discard_answer succeeds) d g =
    if_cases OutcomeIsGood succeeds _ _ (λ _. update_counter-IsGood h 0 d g) (λ _. g)
step-IsGood h (repair_answer succeeds count) d g =
    if_cases OutcomeIsGood succeeds _ _ (λ _. g) (λ _. decision-IsGood h _ none d g)
step-IsGood h (rollback_answer none) d g = g
step-IsGood h (rollback_answer (some n)) d g =
    update_counter-IsGood h (or_missing (number_or_null n) 0) _ (clear-IsGood d.storage g)

-- Whatever messages, clicks and answers follow one another, at whatever times: if no progress is
-- stored at first, or a consistent one, what is stored in the end is of a positive total, which the
-- completed and the remaining operations make up.
pub run-IsGood :
    (es : List (Here × Event)) (d : Dock) → IsGood d.storage → IsGood (run es d).storage
unfolding run
run-IsGood [] d g = g
run-IsGood ((h, e) ∷ es) d g = run-IsGood es (step h e d) (step-IsGood h e d g)

-- ===== src/Pick/Exclusive.antt =====
-- One tool at most is active.
use ar_automation_agent.Prelude.{
  ◌≡◌, ap, ◌∙◌, Bool, true, false, ◌&&◌, ◌||◌, Option, none, some, List, [], ◌∷◌, arith,
  if◌then◌else◌, if_cases,
}
use ar_automation_agent.Pick.State.{Pick, El}
use ar_automation_agent.Pick.Steps.{set_live_state, hide_highlight, hide_action_picker}
use ar_automation_agent.Pick.Tools.{toggle_pick, toggle_insert, save_interaction_prefs}
use ar_automation_agent.Pick.Keys.{
  Dom, Press, handle_key_down, target_keys, Outcome, nav_element, edited_target, takes_key,
  is_escape, on_escape, page_keys, escape_picking, escape_configuring, escape_in,
}
use ar_automation_agent.Resume.Meta.{
  LiveState, idle, picking, configuring, editing, generating, cycling, saving, confirmed,
}
use ar_automation_agent.Pick.Run.{
  Event, moves, clicks, keys, edits, inputs, toggles_pick, toggles_insert, toggles_picker,
  picker_due, removes, cancels, step, run,
}
use ar_automation_agent.Pick.Untouched.{
  Tools, tools, hide_bar-tools, exit-tools, cancel_insert-tools, move-tools, click-tools,
  cancel_editing-tools, nav-tools, busy-tools, edit-tools, enter-tools, input-tools, remove-tools,
  picker-tools, due-tools, teardown-tools, clear-tools,
}

abbrev is_both : Option (Bool × Bool) → Bool
is_both none = false
is_both (some (a, b)) = a && b

pub record IsExclusive (p : Pick) : Type 0 where
  pub now : (p.pick_active && p.insert_active) ≡ false
  pub saved : is_both p.saved_prefs ≡ false

-- The two toggles set the tools to one or none of them.
toggle_pick-tools :
    (p : Pick)
    → tools (toggle_pick p) ≡ (
        if p.pending_apply_in_flight
        then tools p
        else if p.pick_active
        then (false, p.insert_active, some (false, p.insert_active))
        else (true, false, some (true, false)))
unfolding toggle_pick save_interaction_prefs set_live_state hide_action_picker hide_highlight
toggle_pick-tools p = grind (arith, cancel_insert-tools, teardown-tools, clear-tools)

toggle_insert-tools :
    (p : Pick)
    → tools (toggle_insert p) ≡ (
        if p.pending_apply_in_flight
        then tools p
        else if p.insert_active
        then (p.pick_active, false, some (p.pick_active, false))
        else (false, true, some (false, true)))
unfolding toggle_insert save_interaction_prefs set_live_state hide_action_picker hide_highlight
toggle_insert-tools p = grind (arith, cancel_insert-tools, hide_bar-tools, clear-tools)

same-IsExclusive : (p q : Pick) → tools q ≡ tools p → IsExclusive p → IsExclusive q
same-IsExclusive p q e h = record {
  now = ap (λ (t : Tools). t.0 && t.1) e ∙ h.now;
  saved = ap (λ (t : Tools). is_both t.2) e ∙ h.saved;
}

toggle_pick-IsExclusive : (p : Pick) → IsExclusive p → IsExclusive (toggle_pick p)
toggle_pick-IsExclusive p h = record {
  now = ap (λ (t : Tools). t.0 && t.1) (toggle_pick-tools p) ∙ ground (arith, h.now);
  saved = ap (λ (t : Tools). is_both t.2) (toggle_pick-tools p) ∙ ground (arith, h.saved);
}

toggle_insert-IsExclusive : (p : Pick) → IsExclusive p → IsExclusive (toggle_insert p)
toggle_insert-IsExclusive p h = record {
  now = ap (λ (t : Tools). t.0 && t.1) (toggle_insert-tools p) ∙ ground (arith, h.now);
  saved = ap (λ (t : Tools). is_both t.2) (toggle_insert-tools p) ∙ ground (arith, h.saved);
}

picking-IsExclusive : (p : Pick) → IsExclusive p → IsExclusive (escape_picking p)
unfolding set_live_state hide_highlight
picking-IsExclusive p h =
    if_cases IsExclusive p.insert_active _ _ (λ _. toggle_insert-IsExclusive p h)
      (λ _.
        if_cases IsExclusive p.pick_active _ _ (λ _. toggle_pick-IsExclusive p h)
          (λ _. record { now = h.now; saved = h.saved }))

configuring-tools : (p : Pick) → tools (escape_configuring p) ≡ tools p
configuring-tools p = ground (arith, cancel_insert-tools p, exit-tools false p)

escape-IsExclusive : (s : LiveState) (p : Pick) → IsExclusive p → IsExclusive (escape_in s p).0
escape-IsExclusive editing p h = same-IsExclusive p _ (cancel_editing-tools p) h
escape-IsExclusive configuring p h = same-IsExclusive p _ (configuring-tools p) h
escape-IsExclusive cycling p h = h
escape-IsExclusive picking p h = picking-IsExclusive p h
escape-IsExclusive idle p h = h
escape-IsExclusive generating p h = h
escape-IsExclusive saving p h = h
escape-IsExclusive confirmed p h = h

on_escape-IsExclusive : (p : Pick) → IsExclusive p → IsExclusive (on_escape p).0
unfolding hide_action_picker
on_escape-IsExclusive p h =
    if_cases (λ (o : Outcome). IsExclusive o.0) p.picker_displayed _ _
      (λ _. record { now = h.now; saved = h.saved }) (λ _. escape-IsExclusive p.state p h)

page_keys-IsExclusive :
    (d : Dom) (k : Press) (p : Pick) → IsExclusive p → IsExclusive (page_keys d k p).0
page_keys-IsExclusive d k p h =
    if_cases (λ (o : Outcome). IsExclusive o.0) p.pending_apply_in_flight _ _
      (λ _. same-IsExclusive p _ (busy-tools k.key p) h)
      (λ _.
        if_cases (λ (o : Outcome). IsExclusive o.0) (is_escape k.key) _ _
          (λ _. on_escape-IsExclusive p h)
          (λ _. same-IsExclusive p _ (nav-tools d k (nav_element p) p) h))

targeted-IsExclusive :
    (d : Dom) (k : Press) (o : Option El) (p : Pick)
    → IsExclusive p
    → IsExclusive (target_keys d k o p).0
targeted-IsExclusive d k none p h = page_keys-IsExclusive d k p h
targeted-IsExclusive d k (some e) p h = same-IsExclusive p _ (edit-tools k.key e p) h

keys-IsExclusive :
    (d : Dom) (k : Press) (p : Pick) → IsExclusive p → IsExclusive (handle_key_down d k p).0
unfolding handle_key_down
keys-IsExclusive d k p h =
    if_cases (λ (o : Outcome). IsExclusive o.0) (k.in_annotation || takes_key k.focus k.key p) _ _
      (λ _. h) (λ _. targeted-IsExclusive d k (edited_target k.editable_target p) p h)

step-IsExclusive : (e : Event) (p : Pick) → IsExclusive p → IsExclusive (step e p)
unfolding step
step-IsExclusive (moves t o) p h = same-IsExclusive p _ (move-tools t o p) h
step-IsExclusive (clicks c) p h = same-IsExclusive p _ (click-tools c p) h
step-IsExclusive (keys d k) p h = keys-IsExclusive d k p h
step-IsExclusive (edits leaves) p h = same-IsExclusive p _ (enter-tools leaves p) h
step-IsExclusive (inputs e t) p h = same-IsExclusive p _ (input-tools e t p) h
step-IsExclusive toggles_pick p h = toggle_pick-IsExclusive p h
step-IsExclusive toggles_insert p h = toggle_insert-IsExclusive p h
step-IsExclusive toggles_picker p h = same-IsExclusive p _ (picker-tools p) h
step-IsExclusive picker_due p h = same-IsExclusive p _ (due-tools p) h
step-IsExclusive removes p h = same-IsExclusive p _ (remove-tools p) h
step-IsExclusive cancels p h = same-IsExclusive p _ (cancel_editing-tools p) h

-- Where the tool that picks and the tool that inserts are not both active, nor remembered by the browser
-- as active, they never are, whatever the user does.
pub run-IsExclusive : (es : List Event) (p : Pick) → IsExclusive p → IsExclusive (run es p)
unfolding run
run-IsExclusive [] p h = h
run-IsExclusive (e ∷ es) p h = run-IsExclusive es (step e p) (step-IsExclusive e p h)

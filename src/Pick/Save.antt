-- ===== src/Pick/Save.antt =====
-- `applyEditing` of live-browser.js: the copy edits that are sent.
use ar_automation_agent.Prelude.{
  ℕ, not, Option, none, some, List, [], ◌∷◌, some_of, keep, ◌==◌, if◌then◌else◌,
}
use ar_automation_agent.Prelude.Text.{Text, text_eq, is_set, trim}
use ar_automation_agent.Pick.State.{El, Row, Pick}
use ar_automation_agent.Pick.Steps.{cancel_editing}

-- The part of an `op` that says what changes.
pub record Op : Type 0 where
  pub el : El
  pub original_text : Text
  pub new_text : Text

-- What a save comes to: no row is changed, the first text that is refused, or the request.
pub data Save : Type 0 where
  busy unchanged empty_text : Save
  forbidden : List ℕ → Save
  stashes : List Op → Save

abbrev pub forbidden_chars : List ℕ
forbidden_chars = 60 ∷ 123 ∷ 125 ∷ 96 ∷ []

unfoldable pub forbidden_manual_text_chars : Text → List ℕ
forbidden_manual_text_chars t = keep (λ c. some_of (λ d. d == c) t) forbidden_chars

abbrev pub draft_of : El → List (El × Text) → Option Text
draft_of e [] = none
draft_of e (d ∷ ds) = if d.0 == e then some d.1 else draft_of e ds

-- The new text of a row, where it has one that differs.
abbrev pub if_changed : Row → Option Text → Option Text
if_changed r none = none
if_changed r (some t) = if text_eq t r.text then none else some t

abbrev pub change_of : List (El × Text) → Row → Option Text
change_of drafts r = if_changed r (draft_of r.el drafts)

abbrev pub add_op : Op → Save → Save
add_op op (stashes ops) = stashes (op ∷ ops)
add_op op unchanged = stashes (op ∷ [])
add_op op s = s

abbrev pub check_change : Row → Option Text → Save → Save
check_change r none rest = rest
check_change r (some t) rest =
    if not (is_set (trim t)) then empty_text else elim (forbidden_manual_text_chars t) [
      | [] ↦ add_op (record { el = r.el; original_text = r.text; new_text = t }) rest
      | c ∷ cs ↦ forbidden (c ∷ cs)
    ]

unfoldable pub save_rows : List (El × Text) → List Row → Save
unfolding forbidden_manual_text_chars trim
save_rows drafts [] = unchanged
save_rows drafts (r ∷ rs) = check_change r (change_of drafts r) (save_rows drafts rs)

abbrev pub after_save : Save → Pick → Pick
after_save unchanged p = cancel_editing p
after_save s p = p

unfoldable pub apply_editing : Pick → Pick × Save
unfolding save_rows cancel_editing
apply_editing p =
    if p.pending_apply_in_flight
    then (p, busy)
    else let s = save_rows p.inline_edit_drafts p.inline_edit_rows in (after_save s p, s)

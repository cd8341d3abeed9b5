-- ===== src/Pick/Kept.antt =====
-- The texts that are edited, and what they were.
use ar_automation_agent.Prelude.{
  ◌≡◌, refl, sym, ap, ◌∙◌, subst, Bool, true, false, ◌&&◌, List, [], ◌∷◌, some_of, All, arith, ◌==◌,
  if◌then◌else◌, if_cases, Bool-cases, inl, inr,
}
use ar_automation_agent.Prelude.Text.{Text}
use ar_automation_agent.Pick.State.{El, Row, Pick, is_editing, is_insert, has_draft}
use ar_automation_agent.Pick.Steps.{
  restored, hide_bar, clear_insert_picking, finalize_insert_session, remove_insert_placeholder_dom,
  hide_insert_line, hide_action_picker, close_tune_popover, restore_inline_edit_drafts,
  disable_inline_edit,
}

abbrev pub is_row : El → List Row → Bool
is_row e rows = some_of (λ (r : Row). r.el == e) rows

abbrev pub is_edited : El → List Row → List (El × Text) → Bool
is_edited e rows drafts = is_row e rows && has_draft e drafts

-- The texts are `orig`, but for those that are edited, whose rows remember it.
pub record IsKept (orig : El → Text) (p : Pick) : Type 0 where
  pub ended : is_editing p.state ≡ false → p.inline_edit_rows ≡ []
  pub rows : All (λ (r : Row). r.text ≡ orig r.el) p.inline_edit_rows
  pub texts :
      (e : El) → is_edited e p.inline_edit_rows p.inline_edit_drafts ≡ false → p.texts e ≡ orig e

-- Nothing is edited, and the texts are `orig`.
pub record IsClean (orig : El → Text) (p : Pick) : Type 0 where
  pub rows : p.inline_edit_rows ≡ []
  pub texts : (e : El) → p.texts e ≡ orig e

pub clean-IsKept : (orig : El → Text) (p : Pick) → IsClean orig p → IsKept orig p
clean-IsKept orig p h = record {
  ended = λ _. h.rows;
  rows = rw h.rows tt;
  texts = λ e _. h.texts e;
}

pub kept-IsClean :
    (orig : El → Text) (p : Pick) → is_editing p.state ≡ false → IsKept orig p → IsClean orig p
kept-IsClean orig p s h = record { rows = h.ended s; texts = λ e. h.texts e (rw (h.ended s) refl) }

restored-orig :
    (orig : El → Text) (drafts : List (El × Text)) (rows : List Row) (texts : El → Text)
    → All (λ (r : Row). r.text ≡ orig r.el) rows
    → ((e : El) → is_edited e rows drafts ≡ false → texts e ≡ orig e)
    → (e : El) → restored rows drafts texts e ≡ orig e
unfolding restored
restored-orig orig drafts [] texts h k e = k e refl
restored-orig orig drafts (r ∷ rs) texts (h, hs) k e =
    restored-orig orig drafts rs _ hs
      (λ d u. elim (Bool-cases (r.el == d)) [
        | inl same ↦ elim (Bool-cases (has_draft r.el drafts)) [
          | inl has ↦ rw has (rw same (h ∙ ap orig (at_eq r.el d same)))
          | inr not_has ↦
              rw not_has (
                k d (rw same (subst (λ z. has_draft z drafts ≡ false) (at_eq r.el d same) not_has)))
        ]
        | inr other ↦
            let kept : texts d ≡ orig d = k d (rw other u) in
            if_cases (λ (f : El → Text). f d ≡ orig d) (has_draft r.el drafts) _ _
              (λ _. rw other kept) (λ _. kept)
      ])
      e
  where
    at_eq : (a b : El) → (a == b) ≡ true → a ≡ b
    at_eq a b h = ground (arith, h)

pub restore-IsClean :
    (orig : El → Text) (p : Pick)
    → IsKept orig p
    → IsClean orig (disable_inline_edit (restore_inline_edit_drafts p))
unfolding disable_inline_edit restore_inline_edit_drafts
restore-IsClean orig p h = record {
  rows = refl;
  texts = restored-orig orig p.inline_edit_drafts p.inline_edit_rows p.texts h.rows h.texts;
}

-- The fields of the editing, without the state.
abbrev Inline : Type 0
Inline = List Row × List (El × Text) × (El → Text)

abbrev pub inline : Pick → Inline
inline p = (p.inline_edit_rows, p.inline_edit_drafts, p.texts)

pub same-IsClean :
    (orig : El → Text) (p q : Pick) → inline q ≡ inline p → IsClean orig p → IsClean orig q
same-IsClean orig p q e h = record {
  rows = ap (λ (i : Inline). i.0) e ∙ h.rows;
  texts = λ d. ap (λ (i : Inline). i.2 d) e ∙ h.texts d;
}

pub same-IsKept :
    (orig : El → Text) (p q : Pick)
    → inline q ≡ inline p
    → q.state ≡ p.state
    → IsKept orig p
    → IsKept orig q
same-IsKept orig p q e s h = record {
  ended = λ (n : is_editing q.state ≡ false). ap (λ (i : Inline). i.0) e ∙ h.ended (rw s at n);
  rows = subst (λ (i : Inline). All (λ (r : Row). r.text ≡ orig r.el) i.0) (sym e) h.rows;
  texts =
      subst (λ (i : Inline). (d : El) → is_edited d i.0 i.1 ≡ false → i.2 d ≡ orig d) (sym e)
        h.texts;
}

shown-inline :
    (p : Pick)
    → inline (if is_insert p.configure_kind then clear_insert_picking p else p) ≡ inline p
unfolding clear_insert_picking finalize_insert_session remove_insert_placeholder_dom
    hide_insert_line
shown-inline p = ground arith

shown-state :
    (p : Pick) → (if is_insert p.configure_kind then clear_insert_picking p else p).state ≡ p.state
unfolding clear_insert_picking finalize_insert_session remove_insert_placeholder_dom
    hide_insert_line
shown-state p = ground arith

end-IsClean :
    (orig : El → Text) (r : Pick)
    → IsKept orig r
    → IsClean orig
        (disable_inline_edit (if is_editing r.state then restore_inline_edit_drafts r else r))
unfolding disable_inline_edit
end-IsClean orig r h =
    if_cases (λ (q : Pick). IsClean orig (disable_inline_edit q)) (is_editing r.state) _ _
      (λ _. restore-IsClean orig r h)
      (λ s. record { rows = refl; texts = (kept-IsClean orig r s h).texts })

-- To hide the bar ends the editing.
pub hide_bar-IsClean : (orig : El → Text) (p : Pick) → IsKept orig p → IsClean orig (hide_bar p)
unfolding hide_bar close_tune_popover hide_action_picker
hide_bar-IsClean orig p h =
    let q = if is_insert p.configure_kind then clear_insert_picking p else p in
    let r = close_tune_popover (hide_action_picker (record q { bar_shown = false })) in
    end-IsClean orig r (same-IsKept orig p r (shown-inline p) (shown-state p) h)

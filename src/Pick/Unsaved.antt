-- ===== src/Pick/Unsaved.antt =====
-- How the keys and the inputs keep the texts that are edited.
use ar_automation_agent.Prelude.{
  ◌≡◌, refl, sym, ap, ◌∙◌, subst, Bool, true, false, ◌&&◌, ◌||◌, Option, none, some, List, [], ◌∷◌,
  All, arith, ◌==◌, if◌then◌else◌, if_cases, Bool-cases, inl, inr,
}
use ar_automation_agent.Prelude.Text.{Text}
use ar_automation_agent.Resume.Meta.{
  LiveState, idle, picking, configuring, editing, generating, cycling, saving, confirmed,
}
use ar_automation_agent.Pick.State.{
  El, Row, Pick, is_editing, is_picking, is_configuring, has_draft, without_draft, with_text,
}
use ar_automation_agent.Pick.Steps.{
  rows_of, hide_bar, clear_insert_picking, finalize_insert_session, remove_insert_placeholder_dom,
  hide_insert_line, hide_overlay, hide_action_picker, close_tune_popover,
  restore_inline_edit_drafts, disable_inline_edit, set_live_state, enable_inline_edit,
  on_inline_input, is_inline_edit_active, enter_editing_mode,
}
use ar_automation_agent.Pick.Keys.{
  Dom, Press, Key, Outcome, undo_edit, text_of_row, nav_keys, nav_element, is_nav, cycling_keys,
}
use ar_automation_agent.Pick.Kept.{
  is_row, IsKept, IsClean, clean-IsKept, kept-IsClean, same-IsClean, same-IsKept, hide_bar-IsClean,
}
use ar_automation_agent.Pick.Ended.{navigate-IsClean}

clash {ℓ} : {A : Type ℓ} (a b c : Bool) → a ≡ true → b ≡ true → (a && (b || c)) ≡ false → A
clash true true c h k u = cc
clash true false c h k u = cc
clash false b c h k u = cc

module _ (orig : El → Text) where
  pub kept : (q : Pick) → IsClean orig q → IsKept orig q
  kept q h = clean-IsKept orig q h

  nav_state :
      (s : LiveState) (a b : Option El) (e : El)
      → (if is_picking s then a else if is_configuring s then b else none) ≡ some e
      → is_editing s ≡ false
  nav_state editing a b e h = cc
  nav_state picking a b e h = refl
  nav_state idle a b e h = refl
  nav_state configuring a b e h = refl
  nav_state generating a b e h = refl
  nav_state cycling a b e h = refl
  nav_state saving a b e h = refl
  nav_state confirmed a b e h = refl

  pub cycling-IsKept : (k : Key) (p : Pick) → IsKept orig p → IsKept orig (cycling_keys k p).0
  cycling-IsKept k p h = same-IsKept orig p _ (ground arith) (ground arith) h

  -- An element to navigate from is there outside of the editing only.
  pub nav-IsKept :
      (d : Dom) (k : Press) (o : Option El) (p : Pick)
      → nav_element p ≡ o
      → IsKept orig p
      → IsKept orig (nav_keys d k o p).0
  nav-IsKept d k none p at h = cycling-IsKept k.key p h
  nav-IsKept d k (some e) p at h =
      let s : is_editing p.state ≡ false = nav_state p.state _ _ e at in
      if_cases (λ (o : Outcome). IsKept orig o.0) (is_nav k.key p) _ _
        (λ _. kept _ (navigate-IsClean orig d k e p (kept-IsClean orig p s h)))
        (λ _. cycling-IsKept k.key p h)

  has_draft-without :
      (d e : El) (ds : List (El × Text))
      → (e == d) ≡ false
      → has_draft d (without_draft e ds) ≡ has_draft d ds
  unfolding without_draft
  has_draft-without d e [] h = refl
  has_draft-without d e (x ∷ xs) h = ground (arith, has_draft-without d e xs h)

  row-orig :
      (e : El) (r : Row) (rows : List Row)
      → All (λ (r : Row). r.text ≡ orig r.el) rows
      → text_of_row e rows ≡ some r
      → r.text ≡ orig e
  row-orig e r [] hs at = cc
  row-orig e r (q ∷ qs) (h, hs) at = elim (Bool-cases (q.el == e)) [
    | inl same ↦
        let found : some q ≡ some r = rw same at at in
        let here : q ≡ r = cc in
        let e_is : q.el ≡ e = ground (arith, same) in
        ap (λ (z : Row). z.text) (sym here) ∙ h ∙ ap orig e_is
    | inr other ↦ row-orig e r qs hs (rw other at at)
  ]

  pub undo-IsKept : (e : El) (p : Pick) → IsKept orig p → IsKept orig (undo_edit e p)
  unfolding undo_edit
  undo-IsKept e p h = undone (text_of_row e p.inline_edit_rows) refl
    where
      undone :
          (o : Option Row)
          → text_of_row e p.inline_edit_rows ≡ o
          → IsKept orig (elim o [
            | none ↦ p
            | some r ↦ record p {
              texts = with_text e r.text p.texts;
              inline_edit_drafts = without_draft e p.inline_edit_drafts;
            }
          ])
      undone none at = h
      undone (some r) at = record {
        ended = h.ended;
        rows = h.rows;
        texts = λ d u. elim (Bool-cases (e == d)) [
          | inl same ↦
              let is_e : e ≡ d = ground (arith, same) in
              rw same (row-orig e r p.inline_edit_rows h.rows at ∙ ap orig is_e)
          | inr other ↦
              rw other (h.texts d (rw (has_draft-without d e p.inline_edit_drafts other) at u))
        ];
      }

  pub input-IsKept :
      (e : El) (t : Text) (p : Pick) → IsKept orig p → IsKept orig (on_inline_input e t p)
  unfolding on_inline_input
  input-IsKept e t p h =
      if_cases (IsKept orig) (is_inline_edit_active e p) _ _
        (λ active. record {
          ended = h.ended;
          rows = h.rows;
          texts = λ d u. elim (Bool-cases (e == d)) [
            | inl same ↦
                let is_e : e ≡ d = ground (arith, same) in
                let active_d : is_row d p.inline_edit_rows ≡ true =
                  subst (λ z. is_row z p.inline_edit_rows ≡ true) is_e active in
                clash _ _ _ active_d same u
            | inr other ↦
                rw other
                  (h.texts d (rw (other, has_draft-without d e p.inline_edit_drafts other) at u))
          ];
        })
        (λ _. h)

  row_of-orig :
      (els : List El) (p : Pick)
      → IsClean orig p
      → All (λ (r : Row). r.text ≡ orig r.el) (rows_of p.texts els)
  row_of-orig [] p h = tt
  row_of-orig (e ∷ es) p h = (h.texts e, row_of-orig es p h)

  no_draft : (a : Bool) → (a && false) ≡ false
  no_draft true = refl
  no_draft false = refl

  -- Rows are made of the texts as they are, in the state of editing.
  enable-IsKept :
      (o : Option El) (leaves : El → List El) (p : Pick)
      → is_editing p.state ≡ true
      → IsClean orig p
      → IsKept orig (enable_inline_edit o leaves p)
  unfolding enable_inline_edit
  enable-IsKept none leaves p s h = kept p h
  enable-IsKept (some e) leaves p s h = record {
    ended = λ (n : is_editing p.state ≡ false). clash _ _ true s refl (rw n refl);
    rows = row_of-orig (leaves e) p h;
    texts = λ d _. h.texts d;
  }

  hide_bar-state : (p : Pick) → (hide_bar p).state ≡ p.state
  unfolding hide_bar clear_insert_picking finalize_insert_session remove_insert_placeholder_dom
      hide_insert_line hide_action_picker close_tune_popover disable_inline_edit
      restore_inline_edit_drafts
  hide_bar-state p = ground arith

  pub enter-IsKept :
      (leaves : El → List El) (p : Pick) → IsKept orig p → IsKept orig (enter_editing_mode leaves p)
  unfolding enter_editing_mode set_live_state
  enter-IsKept leaves p h =
      let q = set_live_state editing p in
      let starts : IsKept orig q = record {
        ended = λ (n : true ≡ false). cc;
        rows = h.rows;
        texts = h.texts;
      } in
      if_cases (IsKept orig) p.pending_apply_in_flight _ _ (λ _. h)
        (λ _.
          enable-IsKept p.selected_element leaves (hide_overlay (hide_bar q))
            (rw (hide_bar-state q) refl)
            (same-IsClean orig (hide_bar q) _ refl (hide_bar-IsClean orig q starts)))

-- ===== src/Live/Accepting.antt =====
-- What an accept comes to, whichever way its request goes.
use ar_automation_agent.Prelude.{
  ℕ, zero, suc, ◌-◌, ◌≤◌, arith, length-append, or_left, ◌≡◌, refl, true, false, not, ◌&&◌, Option,
  none, some, List, [], ◌∷◌, ◌==◌, some_of, or_right, length, drop, keep, ◌++◌,
}
use ar_automation_agent.Prelude.Int.{ℤ}
use ar_automation_agent.Prelude.Text.{Text, text_eq, text_eq_refl, is_set}
use ar_automation_agent.Resume.Summary.{Session}
use ar_automation_agent.Resume.Meta.{configuring, cycling, picking, reset_session_file_meta}
use ar_automation_agent.Live.State.{
  Site, Live, is_session_handled, set_live_state, save_session, saved_page, mark_session_handled,
  cleanup_accepted_session, last_eight_of,
}
use ar_automation_agent.Live.Accept.{
  handle_go, handle_accept, accept_selected, on_accept_confirmed, on_accept_failed, on_cleanup_due,
  is_pending_id,
}

-- Variants of the session `id` are compared, and nothing is under way.
pub record IsComparing (id : Text) (l : Live) : Type 0 where
  pub free : l.pending_apply_in_flight ≡ false
  pub none_pending : l.pending ≡ none
  pub compares : l.page.state ≡ cycling
  pub session : l.page.current_session_id ≡ some id
  pub has_id : is_set id ≡ true
  pub arrived : (l.page.arrived_variants == 0) ≡ false

accept-saving :
    (site : Site) (dom : ℕ) (preview : Option Text) (id : Text) (l : Live)
    → IsComparing id l
    → let l' = (handle_accept site false dom preview l).0 in
      (is_pending_id l'.pending id ≡ true) × (l'.page.current_session_id ≡ some id)
unfolding handle_accept accept_selected set_live_state save_session
accept-saving site dom preview id l c =
    simp (c.free, c.none_pending, c.compares, c.session, c.has_id, c.arrived, text_eq_refl)
      (refl, refl)

-- What is left of a session that was accepted: it is handled, nothing is stored or pending, the page
-- picks again, and only its result is still awaited.
pub record IsAccepted (id : Text) (l : Live) : Type 0 where
  pub handled : is_session_handled l id ≡ true
  pub no_session : l.page.current_session_id ≡ none
  pub nothing_stored : l.stored ≡ none
  pub nothing_pending : l.pending ≡ none
  pub picks : l.page.state ≡ picking
  pub awaits : l.awaiting_accept_result ≡ some id

drop-has :
    (n : ℕ) (ids : List Text) (id : Text)
    → n ≤ length ids
    → some_of (text_eq id) (drop n (ids ++ id ∷ [])) ≡ true
drop-has zero [] id h = or_left _ _ (text_eq_refl id)
drop-has zero (i ∷ ids) id h = or_right _ _ (drop-has zero ids id (omega arith))
drop-has (suc n) [] id h = ground arith
drop-has (suc n) (i ∷ ids) id h = drop-has n ids id (omega arith)

pub last_eight_of-has :
    (id : Text) (ids : List Text)
    → is_set id ≡ true
    → (is_set id
        && some_of (text_eq id) (last_eight_of (keep (λ j. not (text_eq j id)) ids ++ id ∷ [])))
      ≡ true
last_eight_of-has id ids i =
    let kept = keep (λ j. not (text_eq j id)) ids in
    let bound : length (kept ++ id ∷ []) - 8 ≤ length kept =
      omega (arith, length-append kept (id ∷ [])) in
    simp (i) (drop-has (length (kept ++ id ∷ []) - 8) kept id bound)

confirmed-IsAccepted :
    (id : Text) (l : Live)
    → is_set id ≡ true
    → is_pending_id l.pending id ≡ true
    → l.page.current_session_id ≡ some id
    → IsAccepted id (on_cleanup_due id (on_accept_confirmed id l).0).0
unfolding on_cleanup_due on_accept_confirmed set_live_state mark_session_handled
    cleanup_accepted_session reset_session_file_meta
confirmed-IsAccepted id l i p e =
    simp (i, p, e)
      (record {
        handled = last_eight_of-has id l.handled i;
        no_session = refl;
        nothing_stored = refl;
        nothing_pending = refl;
        picks = refl;
        awaits = refl;
      })

-- While a session is compared, with a variant there and nothing under way, an accept whose request
-- succeeds frees the page for the next pick: the session is handled and gone from the page and the
-- storage, and only its result is still awaited.
pub handle_accept-IsAccepted :
    (site : Site) (dom : ℕ) (preview : Option Text) (id : Text) (l : Live)
    → IsComparing id l
    → IsAccepted id
        (on_cleanup_due id (on_accept_confirmed id (handle_accept site false dom preview l).0).0).0
handle_accept-IsAccepted site dom preview id l c =
    let (pending, session) = accept-saving site dom preview id l c in
    confirmed-IsAccepted id (handle_accept site false dom preview l).0 c.has_id pending session

abbrev pub stored_id : Option Session → Option Text
stored_id none = none
stored_id (some s) = s.id

-- While a session is compared, with a variant there and nothing under way, an accept whose request
-- fails can be tried again: the same session is compared, with nothing pending, and it is stored.
pub on_accept_failed-IsComparing :
    (site : Site) (dom : ℕ) (preview : Option Text) (id : Text) (l : Live)
    → IsComparing id l
    → let l' = (on_accept_failed id (handle_accept site false dom preview l).0).0 in
      IsComparing id l' × (stored_id l'.stored ≡ some id)
unfolding on_accept_failed handle_accept accept_selected set_live_state save_session saved_page
on_accept_failed-IsComparing site dom preview id l c =
    simp (c.free, c.none_pending, c.compares, c.session, c.has_id, c.arrived, text_eq_refl)
      (
        record {
          free = refl;
          none_pending = refl;
          compares = refl;
          session = refl;
          has_id = c.has_id;
          arrived = c.arrived;
        },
        refl,
      )

-- An accept whose request fails late does harm: if Go has begun a new session meanwhile, for an
-- element that was configured while no copy edits were applied, the page compares the variants of
-- the new session though none has arrived, and is no longer generating.
pub on_accept_failed-handle_go :
    (site : Site) (id next : Text) (anchor : Option ℕ) (top : Option ℤ) (l : Live)
    → l.pending_apply_in_flight ≡ false
    → l.selected ≡ true
    → l.page.state ≡ configuring
    → is_set next ≡ true
    → let p = (on_accept_failed id (handle_go site next anchor top l).0).0.page in
      (p.state ≡ cycling) × (p.current_session_id ≡ some next) × (p.arrived_variants ≡ 0)
unfolding on_accept_failed handle_go set_live_state save_session reset_session_file_meta
on_accept_failed-handle_go site id next anchor top l free selected configures is_next =
    simp (free, selected, configures, is_next) (refl, refl, refl)

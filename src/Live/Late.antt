-- ===== src/Live/Late.antt =====
-- What an error for the page's session comes to.
use ar_automation_agent.Prelude.{◌≡◌, refl, Bool, true, false, ◌&&◌, none, some}
use ar_automation_agent.Prelude.Text.{Text, text_eq_refl, is_set}
use ar_automation_agent.Resume.Meta.{picking, reset_session_file_meta}
use ar_automation_agent.Live.State.{
  Site, Live, is_id, is_session_handled, mark_session_handled, cleanup,
}
use ar_automation_agent.Live.Messages.{on_error, on_agent_error, is_pending_message, is_steer}
use ar_automation_agent.Live.Accepting.{last_eight_of-has}

and_false : (b : Bool) → (b && false) ≡ false
and_false true = refl
and_false false = refl

-- The page after an error that ends its session.
pub record IsTornDown (id : Text) (l : Live) : Type 0 where
  pub handled : is_session_handled l id ≡ true
  pub no_session : l.page.current_session_id ≡ none
  pub nothing_stored : l.stored ≡ none
  pub picks : l.page.state ≡ picking

-- An error that names the page's session ends it for good: it is handled and gone from the page and
-- the storage, so that no reload brings it back. It is no error of an accept or of the chat.
pub on_error-IsTornDown :
    (site : Site) (id : Text) (l : Live)
    → is_set id ≡ true
    → l.page.current_session_id ≡ some id
    → is_pending_message (some id) l.pending ≡ false
    → is_id (some id) l.awaiting_accept_result ≡ false
    → is_steer (some id) l ≡ false
    → IsTornDown id (on_error site (some id) l).0
unfolding on_error on_agent_error mark_session_handled cleanup reset_session_file_meta
on_error-IsTornDown site id l i e p a s =
    simp (i, e, p, a, s, text_eq_refl, and_false)
      (record {
        handled = last_eight_of-has id l.handled i;
        no_session = refl;
        nothing_stored = refl;
        picks = refl;
      })

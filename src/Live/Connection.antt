-- ===== src/Live/Connection.antt =====
-- What a lost connection comes to.
use ar_automation_agent.Prelude.{ℕ, zero, suc, ◌+◌, ◌≤◌, ◌≡◌, refl, ap, ◌∙◌, true, some, arith, leb}
use ar_automation_agent.Prelude.Text.{Text}
use ar_automation_agent.Resume.Summary.{has}
use ar_automation_agent.Live.State.{Site, Live, save_session, saved_page}
use ar_automation_agent.Live.Messages.{on_connection_error, handle_server_lost}

abbrev pub on_connection_errors : Site → ℕ → Live → Live
on_connection_errors site zero l = l
on_connection_errors site (suc n) l = on_connection_errors site n (on_connection_error site l).0

le→leb : (a b : ℕ) → a ≤ b → leb a b ≡ true
le→leb a b h = ground arith

one_more :
    (site : Site) (l : Live)
    → suc l.sse_retries ≤ 20
    → (on_connection_error site l).0 ≡ record l { sse_retries = suc l.sse_retries }
unfolding on_connection_error
one_more site l h = simp (le→leb (suc l.sse_retries) 20 h)

-- Up to twenty failures in a row change nothing but their count, however many of them there are.
pub on_connection_errors-kept :
    (site : Site) (n : ℕ) (l : Live)
    → l.sse_retries + n ≤ 20
    → on_connection_errors site n l ≡ record l { sse_retries = l.sse_retries + n }
on_connection_errors-kept site zero l h =
    let same : l.sse_retries ≡ l.sse_retries + 0 = omega arith in
    ap (λ r. record l { sse_retries = r }) same
on_connection_errors-kept site (suc n) l h =
    let room : suc l.sse_retries ≤ 20 = omega arith in
    let rest : suc l.sse_retries + n ≤ 20 = omega arith in
    let count : suc l.sse_retries + n ≡ l.sse_retries + suc n = omega arith in
    ap (on_connection_errors site n) (one_more site l room)
    ∙ on_connection_errors-kept site n (record l { sse_retries = suc l.sse_retries }) rest
    ∙ ap (λ r. record l { sse_retries = r }) count

-- When the server is given up, a session stays as it was, and it is stored with its state.
pub handle_server_lost-kept :
    (site : Site) (id : Text) (l : Live)
    → l.page.current_session_id ≡ some id
    → has (some id) ≡ true
    → let l' = (handle_server_lost site l).0 in
      (l'.page.current_session_id ≡ some id)
      × (l'.page.state ≡ l.page.state)
      × (l'.stored ≡ some (saved_page site l'.page))
unfolding handle_server_lost save_session
handle_server_lost-kept site id l e i = simp (e, i) (refl, refl, refl)

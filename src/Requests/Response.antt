-- ===== src/Requests/Response.antt =====
-- `sendEvent` of live-browser.js: what the answer of a request comes to.
use ar_automation_agent.Prelude.{Bool, ◌&&◌, Option, some, List, [], if◌then◌else◌}
use ar_automation_agent.Prelude.Text.{Text, codes, text_eq}
use ar_automation_agent.Resume.Summary.{has, text_of, or_else}
use ar_automation_agent.Live.State.{Live, Effect, is_id, abandon_foreign_session}

-- `body_error` is the field `error` of the answer's JSON, none where it is missing or no JSON comes;
-- `status` is the text made of the status line.
pub data Answer : Type 0 where
  ok : Answer
  refused : Option Text → Text → Answer
  unreachable : Text → Answer

-- What the caller's promise gives: the answer, null, or the error that it rejects with.
pub data Result : Type 0 where
  response null : Result
  rejected : Text → Result

-- `handleFailure`: an optional event is dropped.
abbrev pub handle_failure : Bool → Text → Result
handle_failure throw_on_error e = if throw_on_error then rejected e else null

abbrev pub is_unknown_session : Option Text → Bool
is_unknown_session e = text_eq (text_of e) (codes "unknown_session")

-- A checkpoint of a session that the server does not know abandons the session, if it is the page's.
unfoldable pub on_answer : Bool → Bool → Option Text → Answer → Live → Live × List Effect × Result
on_answer throw_on_error checkpoint id ok l = (l, [], response)
on_answer throw_on_error checkpoint id (unreachable e) l = (l, [], handle_failure throw_on_error e)
on_answer throw_on_error checkpoint id (refused error status) l =
    if is_unknown_session error && checkpoint && has id && is_id id l.page.current_session_id
    then (
      (abandon_foreign_session (text_of id) l).0,
      (abandon_foreign_session (text_of id) l).1,
      null,
    )
    else (l, [], handle_failure throw_on_error (text_of (or_else error (some status))))

-- ===== src/Session/Tests.antt =====
-- Runs of the session state, and its theorems at concrete inputs.
use Prim.Native.String.{String}
use ar_automation_agent.Prelude.{◌<◌, ◌≡◌, refl, true, false, none, some, [], ◌∷◌, length}
use ar_automation_agent.Prelude.Int.{pos}
use ar_automation_agent.Json.{
  Json, obj, str, int, Fields, end, field, is_set, find_field, truthy, get,
}
use ar_automation_agent.Session.Store.{Key, session, Store, Works, put}
use ar_automation_agent.Session.State.{
  State, fresh, load_session, save_session, next_checkpoint_revision, item, nexts, loads, run,
  read_handled_ids, mark_handled,
}
use ar_automation_agent.Session.Revision.{
  stamped, next_checkpoint_revision-increases, load_session-save_session,
}

-- Some text that is not empty stands for each value.
abbrev text_of : Json → String
text_of v = "{}"

text_of-set : (v : Json) → is_set (text_of v) ≡ true
text_of-set v = refl

abbrev empty : Store
empty = record {
  items = λ _. none;
  get_throws = λ _. false;
  set_throws = λ _ _. false;
  remove_throws = λ _. false;
}

works : (k : Key) → Works empty k
works k = record { reads = refl; writes = λ _. refl; removes = refl }

abbrev saved : Fields
saved = field "id" (str "a1b2c3d4") (field "checkpointRevision" (int (pos 7)) end)

-- A page with a stored session.
abbrev resumed : State
resumed = fresh (record empty { items = put session (some (item text_of (obj saved))) empty.items })

resumed-Works : Works resumed.store session
resumed-Works = record { reads = refl; writes = λ _. refl; removes = refl }

-- The stored revision is above the page's, so the next one is no less.
next_after_resume : (next_checkpoint_revision text_of resumed).1 ≡ 7
unfolding next_checkpoint_revision find_field
next_after_resume = refl

eight_at_most :
    length (
      read_handled_ids
        (mark_handled text_of (mark_handled text_of (mark_handled text_of empty "a") "b") "a"))
    ≡ 2
unfolding mark_handled
eight_at_most = refl

next_checkpoint_revision-increases_example :
    (next_checkpoint_revision text_of resumed).1
    < (next_checkpoint_revision text_of
        (run text_of (next_checkpoint_revision text_of resumed).0 (loads ∷ nexts ∷ []))).1
next_checkpoint_revision-increases_example =
    next_checkpoint_revision-increases text_of resumed (loads ∷ nexts ∷ [])

load_session-save_session_example :
    load_session (save_session text_of (fresh empty) (obj saved))
    ≡ (save_session text_of (fresh empty) (obj saved), some (stamped 0 saved))
unfolding truthy get find_field
load_session-save_session_example =
    load_session-save_session text_of text_of-set (fresh empty) saved (works session) refl

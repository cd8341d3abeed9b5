-- ===== src/Requests/Rising.antt =====
-- The revisions of the checkpoints on the store of live-browser-session.js, which the rest of the page
-- uses too.
use Prim.Native.String.{String}
use ar_automation_agent.Prelude.{List, [], ◌∷◌, ◌⊎◌, inl, inr}
use ar_automation_agent.Json.{Json}
use ar_automation_agent.Session.State.{State, Call, step as store_step, next_checkpoint_revision}
use ar_automation_agent.Session.Revision.{next_checkpoint_revision-grows, step-le}
use ar_automation_agent.Requests.Checkpoint.{Sender, Event, step}
use ar_automation_agent.Requests.Revisions.{IsRising, IsRising-le, step-IsRising}

module _ (stringify : Json → String) where
  -- A checkpoint is asked for, the timer is due or the page turns; or the page calls another operation
  -- of the store.
  abbrev pub act : Event ⊎ Call → Sender State → Sender State
  act (inl e) s = step State (next_checkpoint_revision stringify) e s
  act (inr c) s = record s { store = store_step stringify s.store c }

  abbrev pub acts : List (Event ⊎ Call) → Sender State → Sender State
  acts [] s = s
  acts (a ∷ rest) s = acts rest (act a s)

  act-IsRising :
      (a : Event ⊎ Call) (s : Sender State)
      → IsRising s.handed s.store.revision
      → IsRising (act a s).handed (act a s).store.revision
  act-IsRising (inl e) s h =
      step-IsRising State (next_checkpoint_revision stringify) (λ (t : State). t.revision)
        (λ t. (next_checkpoint_revision-grows stringify t).0)
        (λ t. (next_checkpoint_revision-grows stringify t).1) e s h
  act-IsRising (inr c) s h = IsRising-le s.handed s.store.revision _ (step-le stringify s.store c) h

  -- `sendEvent` is called with checkpoints of ever larger revisions, of the session and of a steer,
  -- whatever is sent, queued and put off, whatever else the page saves, loads, clears and seeds in
  -- its store between, and whatever the storage refuses; if they were rising before, up to the
  -- revision of the store. (In which order they reach the server is not said: that is up to the gate.)
  pub acts-IsRising :
      (rest : List (Event ⊎ Call)) (s : Sender State)
      → IsRising s.handed s.store.revision
      → IsRising (acts rest s).handed (acts rest s).store.revision
  acts-IsRising [] s h = h
  acts-IsRising (a ∷ rest) s h = acts-IsRising rest (act a s) (act-IsRising a s h)

-- ===== src/Requests/Gate.antt =====
-- The gate of `sendEvent` in live-browser.js: a request that reports on a session waits for the one
-- that creates it.
use ar_automation_agent.Prelude.{
  ℕ, ◌≡◌, Bool, true, Option, none, some, List, [], ◌∷◌, ◌++◌, some_of, ◌==◌,
}

-- A call has a number, and its message creates a session (`generate` and `steer`) or does not.
pub data Kind : Type 0 where
  creation progress : Kind

-- What happens, seen from outside: a call of `sendEvent`, its request going out, and the request
-- being answered or failing.
pub data Action : Type 0 where
  calls : ℕ → Kind → Action
  sends settles : ℕ → Action

-- A call that waits, with the gate that it read: none is a gate that was open from the start.
pub record Waiting : Type 0 where
  pub call : ℕ
  pub gate : Option ℕ

-- `session_creation_gate` is the creation that it was made of. `answered` are the calls whose
-- promise is settled, whether the request succeeded or not.
pub record Gate : Type 0 where
  pub session_creation_gate : Option ℕ
  pub waiting : List Waiting
  pub answered : List ℕ

abbrev pub is_answered : ℕ → List ℕ → Bool
is_answered c answered = some_of (λ d. d == c) answered

abbrev pub is_open : Option ℕ → List ℕ → Bool
is_open none answered = true
is_open (some c) answered = is_answered c answered

unfoldable pub fresh : Gate
fresh = record { session_creation_gate = none; waiting = []; answered = [] }

-- The actions of a step are listed with the last first. A creation goes out at once and is the gate from then on; any other waits for the gate as
-- it is.
unfoldable pub send_event : ℕ → Kind → Gate → Gate × List Action
send_event c creation g =
    (record g { session_creation_gate = some c }, sends c ∷ calls c creation ∷ [])
send_event c progress g = (
  record g { waiting = g.waiting ++ record { call = c; gate = g.session_creation_gate } ∷ [] },
  calls c progress ∷ [],
)

unfoldable pub settle : ℕ → Gate → Gate × List Action
settle c g = (record g { answered = c ∷ g.answered }, settles c ∷ [])

-- The reaction of one waiting call to its gate, which runs some time after the gate has opened.
-- The calls before it in the list are `before`.
unfoldable pub react : List Waiting → Waiting → List Waiting → Gate → Gate × List Action
react before w behind g = (record g { waiting = before ++ behind }, sends w.call ∷ [])

-- The steps, which the browser takes in any order: `Step g g' actions`.
pub data Step (g : Gate) : Gate × List Action → Type 0 where
  called : (c : ℕ) (k : Kind) → Step g (send_event c k g)
  settled : (c : ℕ) → Step g (settle c g)
  reacted :
      (before behind : List Waiting) (w : Waiting)
      → g.waiting ≡ before ++ w ∷ behind
      → is_open w.gate g.answered ≡ true
      → Step g (react before w behind g)

-- The runs from the start, with what has happened, the last first.
pub data Run : Gate → List Action → Type 0 where
  starts : Run fresh []
  goes :
      {g : Gate} {past : List Action} (r : Gate × List Action)
      → Run g past
      → Step g r
      → Run r.0 (r.1 ++ past)

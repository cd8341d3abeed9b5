-- ===== src/Requests/Order.antt =====
-- The order of the requests, whatever order the browser chooses.
use ar_automation_agent.Prelude.{
  ℕ, ◌≡◌, refl, sym, ap, ◌∙◌, subst, Bool, true, false, Option, none, some, List, [], ◌∷◌, ◌++◌,
  All, ◌==◌, ◌⊎◌, ◌||◌, All-append, All-middle, inl, inr,
}
use ar_automation_agent.Requests.Gate.{
  Kind, creation, progress, Action, calls, sends, settles, Waiting, Gate, is_answered, is_open,
  fresh, send_event, settle, react, Step, called, settled, reacted, Run, starts, goes,
}

-- What has happened is listed with the last first. The creation that was called last:
abbrev pub last_creation : List Action → Option ℕ
last_creation [] = none
last_creation (calls c creation ∷ past) = some c
last_creation (calls c progress ∷ past) = last_creation past
last_creation (sends c ∷ past) = last_creation past
last_creation (settles c ∷ past) = last_creation past

abbrev pub is_settled : ℕ → List Action → Bool
is_settled c [] = false
is_settled c (settles d ∷ past) = d == c || is_settled c past
is_settled c (calls d k ∷ past) = is_settled c past
is_settled c (sends d ∷ past) = is_settled c past

-- There is no creation, or it is settled.
abbrev pub IsSettled : Option ℕ → List Action → Type 0
IsSettled none past = Unit
IsSettled (some c) past = is_settled c past ≡ true

-- In the past, the call was made when the last creation was `gate`.
pub record IsCalled (c : ℕ) (k : Kind) (gate : Option ℕ) (past : List Action) : Type 0 where
  pub later : List Action
  pub earlier : List Action
  pub splits : past ≡ later ++ calls c k ∷ earlier
  pub reads : last_creation earlier ≡ gate

-- A request may go out for a creation that was called, or for another call if the last creation
-- before it is settled.
abbrev pub MaySend : ℕ → List Action → Type 0
MaySend c past =
    ((gate : Option ℕ) × IsCalled c creation gate past)
    ⊎ ((gate : Option ℕ) × IsCalled c progress gate past × IsSettled gate past)

abbrev pub IsOrdered : List Action → Type 0
IsOrdered [] = Unit
IsOrdered (sends c ∷ past) = MaySend c past × IsOrdered past
IsOrdered (calls c k ∷ past) = IsOrdered past
IsOrdered (settles c ∷ past) = IsOrdered past

abbrev AreCalled : List Waiting → List Action → Type 0
AreCalled ws past = All (λ (w : Waiting). IsCalled w.call progress w.gate past) ws

-- The state and what has happened agree.
record Agrees (g : Gate) (past : List Action) : Type 0 where
  gate : g.session_creation_gate ≡ last_creation past
  waits : AreCalled g.waiting past
  settles_all : (c : ℕ) → is_answered c g.answered ≡ is_settled c past
  ordered : IsOrdered past

IsCalled-later :
    (c : ℕ) (k : Kind) (gate : Option ℕ) (past : List Action) (a : Action)
    → IsCalled c k gate past
    → IsCalled c k gate (a ∷ past)
IsCalled-later c k gate past a h = record {
  later = a ∷ h.later;
  earlier = h.earlier;
  splits = ap (λ z. a ∷ z) h.splits;
  reads = h.reads;
}

AreCalled-later :
    (ws : List Waiting) (past : List Action) (a : Action)
    → AreCalled ws past
    → AreCalled ws (a ∷ past)
AreCalled-later [] past a h = tt
AreCalled-later (w ∷ ws) past a (h, hs) =
    (IsCalled-later w.call progress w.gate past a h, AreCalled-later ws past a hs)

IsOpen-IsSettled :
    (gate : Option ℕ) (answered : List ℕ) (past : List Action)
    → ((c : ℕ) → is_answered c answered ≡ is_settled c past)
    → is_open gate answered ≡ true
    → IsSettled gate past
IsOpen-IsSettled none answered past same h = tt
IsOpen-IsSettled (some c) answered past same h = sym (same c) ∙ h

fresh-Agrees : Agrees fresh []
unfolding fresh
fresh-Agrees = record { gate = refl; waits = tt; settles_all = λ c. refl; ordered = tt }

called-Agrees :
    (c : ℕ) (k : Kind) (g : Gate) (past : List Action)
    → Agrees g past
    → Agrees (send_event c k g).0 ((send_event c k g).1 ++ past)
unfolding send_event
called-Agrees c creation g past h = record {
  gate = refl;
  waits =
      AreCalled-later g.waiting _ (sends c)
        (AreCalled-later g.waiting past (calls c creation) h.waits);
  settles_all = h.settles_all;
  ordered = (
    inl (last_creation past, record { later = []; earlier = past; splits = refl; reads = refl }),
    h.ordered,
  );
}
called-Agrees c progress g past h = record {
  gate = h.gate;
  waits =
      All-append _ g.waiting _ (AreCalled-later g.waiting past (calls c progress) h.waits)
        (record { later = []; earlier = past; splits = refl; reads = sym h.gate }, tt);
  settles_all = h.settles_all;
  ordered = h.ordered;
}

settled-Agrees :
    (c : ℕ) (g : Gate) (past : List Action)
    → Agrees g past
    → Agrees (settle c g).0 ((settle c g).1 ++ past)
unfolding settle
settled-Agrees c g past h = record {
  gate = h.gate;
  waits = AreCalled-later g.waiting past (settles c) h.waits;
  settles_all = λ d. ap (λ b. c == d || b) (h.settles_all d);
  ordered = h.ordered;
}

reacted-Agrees :
    (before behind : List Waiting) (w : Waiting) (g : Gate) (past : List Action)
    → g.waiting ≡ before ++ w ∷ behind
    → is_open w.gate g.answered ≡ true
    → Agrees g past
    → Agrees (react before w behind g).0 ((react before w behind g).1 ++ past)
unfolding react
reacted-Agrees before behind w g past e o h =
    let here : AreCalled (before ++ w ∷ behind) past = subst (λ ws. AreCalled ws past) e h.waits in
    let (one, rest) = All-middle _ before w behind here in
    record {
      gate = h.gate;
      waits = AreCalled-later (before ++ behind) past (sends w.call) rest;
      settles_all = h.settles_all;
      ordered =
          (inr (w.gate, one, IsOpen-IsSettled w.gate g.answered past h.settles_all o), h.ordered);
    }

Step-Agrees :
    (g : Gate) (r : Gate × List Action) (past : List Action)
    → Step g r
    → Agrees g past
    → Agrees r.0 (r.1 ++ past)
Step-Agrees g r past (called c k) h = called-Agrees c k g past h
Step-Agrees g r past (settled c) h = settled-Agrees c g past h
Step-Agrees g r past (reacted before behind w e o) h = reacted-Agrees before behind w g past e o h

Run-Agrees : {g : Gate} {past : List Action} → Run g past → Agrees g past
Run-Agrees starts = fresh-Agrees
Run-Agrees (goes {g} {past} r run step) = Step-Agrees g r past step (Run-Agrees run)

-- Whatever is called, answered and reacted to in whatever order, each request that goes out belongs
-- to a call before it, and unless that call creates a session, the last creation that was called
-- before it has been answered or has failed.
pub Run-IsOrdered : (g : Gate) (past : List Action) → Run g past → IsOrdered past
Run-IsOrdered g past run = (Run-Agrees run).ordered

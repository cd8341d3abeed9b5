-- ===== src/Requests/Revisions.antt =====
-- The revisions of the checkpoints, and the timer that puts them off.
use ar_automation_agent.Prelude.{
  ℕ, ◌<◌, ◌≤◌, ◌≡◌, refl, ap, ◌∙◌, Option, none, some, List, [], ◌∷◌, ◌++◌, map, arith,
}
use ar_automation_agent.Prelude.Text.{Text}
use ar_automation_agent.Resume.Summary.{set_or_none}
use ar_automation_agent.Requests.Checkpoint.{
  Sent, session_checkpoint, steer_checkpoint, Sender, Event, sends, queues, steers, timer_due,
  turns, checkpoint_payload, send_checkpoint, send_steer_checkpoint, queue_checkpoint, on_timer,
  step, run,
}

abbrev pub revision_of : Sent → ℕ
revision_of (session_checkpoint c p) = c.revision
revision_of (steer_checkpoint c) = c.revision

-- Each checkpoint has a larger revision than those before it, and none is above a bound.
pub data IsRising : List Sent → ℕ → Type 0 where
  empty : {n : ℕ} → IsRising [] n
  sent_next :
      {cs : List Sent} {m n : ℕ} (c : Sent)
      → IsRising cs m
      → m < revision_of c
      → revision_of c ≤ n
      → IsRising (cs ++ c ∷ []) n

module _ (S : Type 0) (next : S → S × ℕ) (at : S → ℕ) (higher : (s : S) → at s < (next s).1)
    (kept : (s : S) → at (next s).0 ≡ (next s).1) where
  with_sent-IsRising :
      (c : Sent) (s : Sender S)
      → revision_of c ≡ (next s.store).1
      → IsRising s.handed (at s.store)
      → IsRising (s.handed ++ c ∷ []) (at (next s.store).0)
  with_sent-IsRising c s e h =
      sent_next c h (omega (arith, e, higher s.store)) (omega (arith, e, kept s.store))

  send-IsRising :
      (reason : Text) (s : Sender S) (o : Option Text)
      → set_or_none s.page.current_session_id ≡ o
      → IsRising s.handed (at s.store)
      → IsRising
          (send_checkpoint S next reason s).handed
          (at (send_checkpoint S next reason s).store)
  unfolding send_checkpoint checkpoint_payload
  send-IsRising reason s none e h = rw (e, send_checkpoint) h
  send-IsRising reason s (some id) e h = rw (e, send_checkpoint) (with_sent-IsRising _ s refl h)

  steer-IsRising :
      (id : Option Text) (reason : Text) (s : Sender S) (o : Option Text)
      → set_or_none id ≡ o
      → IsRising s.handed (at s.store)
      → IsRising
          (send_steer_checkpoint S next id reason s).handed
          (at (send_steer_checkpoint S next id reason s).store)
  unfolding send_steer_checkpoint
  steer-IsRising id reason s none e h = rw (e, send_steer_checkpoint) h
  steer-IsRising id reason s (some i) e h =
      rw (e, send_steer_checkpoint) (with_sent-IsRising _ s refl h)

  timer-IsRising :
      (o : Option Text) (s : Sender S)
      → IsRising s.handed (at s.store)
      → IsRising (on_timer S next o s).handed (at (on_timer S next o s).store)
  timer-IsRising none s h = h
  timer-IsRising (some reason) s h = send-IsRising reason (record s { timer = none }) _ refl h

  queue-IsRising :
      (reason : Text) (s : Sender S) (o : Option Text)
      → set_or_none s.page.current_session_id ≡ o
      → IsRising s.handed (at s.store)
      → IsRising
          (queue_checkpoint S next reason s).handed
          (at (queue_checkpoint S next reason s).store)
  unfolding queue_checkpoint
  queue-IsRising reason s none e h = rw (e, queue_checkpoint) h
  queue-IsRising reason s (some id) e h = rw (e, queue_checkpoint) h

  pub step-IsRising :
      (e : Event) (s : Sender S)
      → IsRising s.handed (at s.store)
      → IsRising (step S next e s).handed (at (step S next e s).store)
  unfolding step
  step-IsRising (sends reason) s h = send-IsRising reason s _ refl h
  step-IsRising (queues reason) s h = queue-IsRising reason s _ refl h
  step-IsRising (steers id reason) s h = steer-IsRising id reason s _ refl h
  step-IsRising timer_due s h = timer-IsRising s.timer s h
  step-IsRising (turns p) s h = h

-- The bound may be put higher.
pub IsRising-le : (cs : List Sent) (m n : ℕ) → m ≤ n → IsRising cs m → IsRising cs n
IsRising-le _ m n le empty = empty
IsRising-le _ m n le (sent_next c h above below) = sent_next c h above (omega (arith, below, le))

queue-timer :
    (S : Type 0) (next : S → S × ℕ) (r id : Text) (s : Sender S)
    → set_or_none s.page.current_session_id ≡ some id
    → queue_checkpoint S next r s ≡ record s { timer = some r }
unfolding queue_checkpoint
queue-timer S next r id s h = rw (h, queue_checkpoint) refl

-- Checkpoints that are queued before the timer is due come to one, the last one: `sendEvent` is called
-- with nothing else.
pub run-queues :
    (S : Type 0) (next : S → S × ℕ) (rs : List Text) (r id : Text) (s : Sender S)
    → set_or_none s.page.current_session_id ≡ some id
    → run S next (map queues rs ++ queues r ∷ timer_due ∷ []) s
      ≡ send_checkpoint S next r (record s { timer = none })
unfolding run step
run-queues S next [] r id s h =
    ap (λ (q : Sender S). on_timer S next q.timer q) (queue-timer S next r id s h)
run-queues S next (q ∷ qs) r id s h =
    ap (λ z. run S next (map queues qs ++ queues r ∷ timer_due ∷ []) z)
      (queue-timer S next q id s h)
    ∙ run-queues S next qs r id (record s { timer = some q }) h

-- ===== src/Requests/Checkpoint.antt =====
-- The checkpoints of live-browser.js: `checkpointPayload`, `sendCheckpoint`, `sendSteerCheckpoint` and
-- `queueCheckpoint`. `next` is `sessionState.nextCheckpointRevision`, on the store `S`.
use ar_automation_agent.Prelude.{ℕ, Option, none, some, List, [], ◌∷◌, ◌++◌}
use ar_automation_agent.Prelude.Text.{Text, codes, lower}
use ar_automation_agent.Resume.Summary.{set_or_none}
use ar_automation_agent.Resume.Meta.{Page}
use ar_automation_agent.Live.State.{state_name}

-- What both kinds of checkpoint carry.
pub record Checkpoint : Type 0 where
  pub id : Text
  pub revision : ℕ
  pub owner : Text
  pub phase : Text
  pub reason : Text
  pub page_url : Text

-- The fields of a checkpoint of the page's session only.
pub record Progress : Type 0 where
  pub expected_variants : ℕ
  pub arrived_variants : ℕ
  pub visible_variant : ℕ
  pub source_file : Option Text
  pub preview_file : Option Text
  pub preview_mode : Option Text
  pub param_values : ℕ

pub data Sent : Type 0 where
  session_checkpoint : Checkpoint → Progress → Sent
  steer_checkpoint : Checkpoint → Sent

-- `timer` is the reason that the checkpoint timer is set for. `handed` are the checkpoints in the order
-- in which `sendEvent` is called with them: it may hold them at its gate, which is Gate's matter, so
-- they may reach the server in another order.
pub record Sender (S : Type 0) : Type 0 where
  pub store : S
  pub page : Page
  pub owner : Text
  pub page_url : Text
  pub timer : Option Text
  pub handed : List Sent

abbrev pub checkpoint : Text → ℕ → Text → Text → Text → Text → Checkpoint
checkpoint id revision owner phase reason url = record {
  id = id;
  revision = revision;
  owner = owner;
  phase = phase;
  reason = reason;
  page_url = url;
}

-- The fields of files are left out where they are empty.
abbrev pub progress_of : Page → Progress
progress_of p = record {
  expected_variants = p.expected_variants;
  arrived_variants = p.arrived_variants;
  visible_variant = p.visible_variant;
  source_file = set_or_none p.current_source_file;
  preview_file = set_or_none p.current_preview_file;
  preview_mode = set_or_none p.current_preview_mode;
  param_values = p.params_current_values;
}

pub data Event : Type 0 where
  sends queues : Text → Event
  steers : Option Text → Text → Event
  timer_due : Event
  turns : Page → Event

module _ (S : Type 0) (next : S → S × ℕ) where
  unfoldable pub checkpoint_payload : Text → Text → Sender S → Sent × S
  unfolding lower
  checkpoint_payload id reason s =
      let (store, revision) = next s.store in
      let phase = lower (state_name s.page.state) in
      (
        session_checkpoint (checkpoint id revision s.owner phase reason s.page_url)
            (progress_of s.page),
        store,
      )

  abbrev pub with_sent : Sent × S → Sender S → Sender S
  with_sent (c, store) s = record s { store = store; handed = s.handed ++ c ∷ [] }

  -- Without a session, `sendEvent` is not called.
  unfoldable pub send_checkpoint : Text → Sender S → Sender S
  unfolding checkpoint_payload
  send_checkpoint reason s = elim (set_or_none s.page.current_session_id) [
    | none ↦ s
    | some id ↦ with_sent (checkpoint_payload id reason s) s
  ]

  unfoldable pub send_steer_checkpoint : Option Text → Text → Sender S → Sender S
  send_steer_checkpoint id reason s = elim (set_or_none id) [
    | none ↦ s
    | some id ↦
        let (store, revision) = next s.store in
        with_sent
          (
            steer_checkpoint (checkpoint id revision s.owner (codes "steer") reason s.page_url),
            store,
          )
          s
  ]

  -- A timer that is set is cleared first.
  unfoldable pub queue_checkpoint : Text → Sender S → Sender S
  queue_checkpoint reason s = elim (set_or_none s.page.current_session_id) [
    | none ↦ s
    | some id ↦ record s { timer = some reason }
  ]

  abbrev pub on_timer : Option Text → Sender S → Sender S
  on_timer none s = s
  on_timer (some reason) s = send_checkpoint reason (record s { timer = none })

  -- `turns` is what the rest of the script does to the page.
  unfoldable pub step : Event → Sender S → Sender S
  unfolding send_checkpoint send_steer_checkpoint queue_checkpoint
  step (sends reason) s = send_checkpoint reason s
  step (queues reason) s = queue_checkpoint reason s
  step (steers id reason) s = send_steer_checkpoint id reason s
  step timer_due s = on_timer s.timer s
  step (turns p) s = record s { page = p }

  unfoldable pub run : List Event → Sender S → Sender S
  unfolding step
  run [] s = s
  run (e ∷ es) s = run es (step e s)

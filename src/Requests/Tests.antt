-- ===== src/Requests/Tests.antt =====
-- Runs of the gate and of an answer, and the theorems at concrete inputs.
use ar_automation_agent.Prelude.{
  ℕ, suc, ◌≡◌, refl, false, true, none, some, List, [], ◌∷◌, ◌⊎◌, inl, inr,
}
use ar_automation_agent.Prelude.Text.{codes}
use ar_automation_agent.Resume.Meta.{Page, cycling}
use ar_automation_agent.Requests.Checkpoint.{
  Sender, Event, sends, queues, steers, timer_due, checkpoint_payload, send_checkpoint,
  send_steer_checkpoint, queue_checkpoint, step, run,
}
use ar_automation_agent.Requests.Revisions.{IsRising, empty, run-queues}
use ar_automation_agent.Requests.Rising.{acts, acts-IsRising}
use Prim.Native.String.{String}
use ar_automation_agent.Json.{Json}
use ar_automation_agent.Session.Store.{Store, safe_read}
use ar_automation_agent.Session.State.{
  State, fresh as fresh_state, Call, loads, nexts, loaded, load_session, save_session,
  step as store_step, next_checkpoint_revision,
}
use ar_automation_agent.Requests.Gate.{
  creation, progress, Action, calls, sends, settles, Gate, fresh, send_event, settle, react, Run,
  called, settled, reacted, starts, goes,
}
use ar_automation_agent.Requests.Order.{IsOrdered, Run-IsOrdered}

-- A session is created and its checkpoint called at once: the checkpoint goes out when the creation
-- is answered.
abbrev gate : Gate
gate = record { session_creation_gate = some 1; waiting = []; answered = 1 ∷ [] }

abbrev happened : List Action
happened = sends 2 ∷ settles 1 ∷ calls 2 progress ∷ sends 1 ∷ calls 1 creation ∷ []

runs : Run gate happened
unfolding fresh send_event settle react
runs =
    goes _ (goes _ (goes _ (goes _ starts (called 1 creation)) (called 2 progress)) (settled 1))
      (reacted [] [] (record { call = 2; gate = some 1 }) refl refl)

Run-IsOrdered_example : IsOrdered happened
Run-IsOrdered_example = Run-IsOrdered gate happened runs

abbrev page : Page
page = record {
  state = cycling;
  current_session_id = some (codes "ab");
  expected_variants = 3;
  arrived_variants = 3;
  visible_variant = 1;
  current_source_file = none;
  current_preview_file = none;
  current_preview_mode = none;
  recovery_waiting_for_anchor = false;
  picked_anchor_snapshot = none;
  picked_anchor_viewport_top = none;
  insert_placeholder_snapshot = none;
  selected_action = codes "impeccable";
  selected_count = 3;
  params_current_values = 0;
  parameter_generation_state = codes "ready";
  generation_phase = none;
}

-- A store that counts.
abbrev counted : ℕ → ℕ × ℕ
counted n = (suc n, suc n)

abbrev sender : Sender ℕ
sender = record {
  store = 4;
  page = page;
  owner = codes "o";
  page_url = codes "/";
  timer = none;
  handed = [];
}

-- A store that refuses to be written to.
abbrev full : Store
full = record {
  items = λ _. none;
  get_throws = λ _. false;
  set_throws = λ _ _. true;
  remove_throws = λ _. false;
}

abbrev text_of : Json → String
text_of v = "{}"

abbrev page_sender : Sender State
page_sender = record {
  store = fresh_state full;
  page = page;
  owner = codes "o";
  page_url = codes "/";
  timer = none;
  handed = [];
}

abbrev turns_of_page : List (Event ⊎ Call)
turns_of_page =
    inl (sends (codes "arrived"))
    ∷ inr loads
    ∷ inl (queues (codes "params"))
    ∷ inr nexts
    ∷ inl (steers (some (codes "s")) (codes "done"))
    ∷ inl timer_due
    ∷ []

acts-IsRising_example :
    IsRising
      (acts text_of turns_of_page page_sender).handed
      (acts text_of turns_of_page page_sender).store.revision
acts-IsRising_example = acts-IsRising text_of turns_of_page page_sender empty

-- Four revisions are taken, three of them by checkpoints.
acts_example : (acts text_of turns_of_page page_sender).store.revision ≡ 4
unfolding step send_checkpoint checkpoint_payload send_steer_checkpoint queue_checkpoint
    next_checkpoint_revision load_session store_step loaded save_session safe_read
acts_example = refl

run-queues_example :
    run ℕ counted (queues (codes "a") ∷ queues (codes "b") ∷ timer_due ∷ []) sender
    ≡ send_checkpoint ℕ counted (codes "b") sender
run-queues_example = run-queues ℕ counted (codes "a" ∷ []) (codes "b") (codes "ab") sender refl

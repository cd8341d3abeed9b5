-- ===== src/Session/Revision.antt =====
-- The checkpoint revision of live-browser-session.js: it only grows, and a reload keeps it.
use Prim.Native.String.{String}
use ar_automation_agent.Prelude.{
  ℕ, ◌+◌, ◌≤◌, ◌<◌, ◌≡◌, refl, ap, true, Option, none, some, List, [], ◌∷◌, arith, Bool-cases, inl,
  inr,
}
use ar_automation_agent.Prelude.Int.{pos, negsuc}
use ar_automation_agent.Json.{
  Json, null, bool, int, obj, Fields, truthy, get, set_field, find_field-set_field, is_set,
}
use ar_automation_agent.Session.Store.{session, safe_read, safe_write, Works}
use ar_automation_agent.Session.State.{
  State, fresh, raise, parsed, loaded, load_session, seed_checkpoint_revision, save_session,
  saved_again, next_checkpoint_revision, Call, saves, loads, clears, nexts, seeds, marks, forgets,
  scrolls, unscrolls, step, run, item, clear_session,
}

raise-le : (r : ℕ) (v : Option Json) → r ≤ raise r v
unfolding raise
raise-le r (some (int (pos n))) = omega arith
raise-le r (some (int (negsuc n))) = omega arith
raise-le r (some null) = omega arith
raise-le r _ = omega arith

loaded-le : (st : State) (v : Option Json) → st.revision ≤ (loaded st v).0.revision
unfolding loaded
loaded-le st none = omega arith
loaded-le st (some null) = omega arith
loaded-le st (some (bool b)) = raise-le st.revision (get "checkpointRevision" (bool b))
loaded-le st (some v) = raise-le st.revision (get "checkpointRevision" v)

load_session-le : (st : State) → st.revision ≤ (load_session st).0.revision
unfolding load_session
load_session-le st = loaded-le st (parsed (safe_read st.store session))

module _ (stringify : Json → String) where
  revision-save_session :
      (st : State) (v : Json) → (save_session stringify st v).revision ≡ st.revision
  unfolding save_session
  revision-save_session st (obj fs) = elim (Bool-cases (truthy (get "id" (obj fs)))) [
    | inl e ↦ rw e
    | inr e ↦ rw e
  ]
  revision-save_session st _ = refl

  revision-saved_again :
      (p : State × Option Json) → (saved_again stringify p).revision ≡ p.0.revision
  revision-saved_again (st, none) = refl
  revision-saved_again (st, some v) = revision-save_session st v

  -- The next revision is above the present one, and it is the one that the page then has.
  pub next_checkpoint_revision-grows :
      (st : State)
      → (st.revision < (next_checkpoint_revision stringify st).1)
        × ((next_checkpoint_revision stringify st).0.revision
            ≡ (next_checkpoint_revision stringify st).1)
  unfolding next_checkpoint_revision
  next_checkpoint_revision-grows st =
      let st' = record st { revision = st.revision + 1 } in
      (omega (arith, revision-saved_again (load_session st'), load_session-le st'), refl)

  pub step-le : (st : State) (c : Call) → st.revision ≤ (step stringify st c).revision
  unfolding step seed_checkpoint_revision clear_session
  step-le st (saves v) = omega (arith, revision-save_session st v)
  step-le st loads = load_session-le st
  step-le st nexts = omega (arith, next_checkpoint_revision-grows st)
  step-le st (seeds v) = raise-le st.revision v
  step-le st clears = omega arith
  step-le st (marks id) = omega arith
  step-le st (forgets id) = omega arith
  step-le st (scrolls y) = omega arith
  step-le st unscrolls = omega arith

  run-le : (st : State) (cs : List Call) → st.revision ≤ (run stringify st cs).revision
  unfolding run
  run-le st [] = omega arith
  run-le st (c ∷ cs) = omega (arith, step-le st c, run-le (step stringify st c) cs)

  -- Whatever calls came between, whatever the storage refused: a later checkpoint's revision is
  -- above an earlier one's.
  pub next_checkpoint_revision-increases :
      (st : State) (cs : List Call)
      → (next_checkpoint_revision stringify st).1
        < (next_checkpoint_revision stringify
            (run stringify (next_checkpoint_revision stringify st).0 cs)).1
  next_checkpoint_revision-increases st cs =
      let first = (next_checkpoint_revision stringify st).0 in
      let (_, same) = next_checkpoint_revision-grows st in
      let (above, _) = next_checkpoint_revision-grows (run stringify first cs) in
      omega (arith, same, above, run-le first cs)

-- The session with the revision in it.
abbrev pub stamped : ℕ → Fields → Json
stamped r fs = obj (set_field "checkpointRevision" (int (pos r)) fs)

revision-stamped :
    (r : ℕ) (fs : Fields) → get "checkpointRevision" (stamped r fs) ≡ some (int (pos r))
unfolding get
revision-stamped r fs =
    find_field-set_field "checkpointRevision" "checkpointRevision" (int (pos r)) fs

raise-stamped :
    (r r' : ℕ) (fs : Fields) → r ≡ r' → raise r (get "checkpointRevision" (stamped r' fs)) ≡ r
unfolding raise
raise-stamped r r' fs h = rw (revision-stamped r' fs) (omega arith)

raise-zero-stamped : (r : ℕ) (fs : Fields) → raise 0 (get "checkpointRevision" (stamped r fs)) ≡ r
unfolding raise
raise-zero-stamped r fs = rw (revision-stamped r fs) (omega arith)

module _ (stringify : Json → String)
    (stringify-set : (v : Json) → is_set (stringify v) ≡ true) where
  store-save_session :
      (st : State) (fs : Fields)
      → Works st.store session
      → truthy (get "id" (obj fs)) ≡ true
      → parsed (safe_read (save_session stringify st (obj fs)).store session)
        ≡ some (stamped st.revision fs)
  unfolding save_session safe_read safe_write
  store-save_session st fs w e =
      rw (e, save_session, w.writes (item stringify (stamped st.revision fs)))
        (rw (w.reads, stringify-set (stamped st.revision fs)))

  -- A session that is saved is loaded again as it was, with the page's revision in it, and neither
  -- the storage nor the revision changes: if the storage refuses nothing, and the session has an id.
  pub load_session-save_session :
      (st : State) (fs : Fields)
      → Works st.store session
      → truthy (get "id" (obj fs)) ≡ true
      → load_session (save_session stringify st (obj fs))
        ≡ (save_session stringify st (obj fs), some (stamped st.revision fs))
  unfolding load_session
  load_session-save_session st fs w e =
      let st' = save_session stringify st (obj fs) in
      rw (store-save_session st fs w e) (
        ap (λ r. (record st' { revision = r }, some (stamped st.revision fs)))
          (raise-stamped st'.revision st.revision fs (revision-save_session stringify st (obj fs))))

  -- The revision outlives the page: if a session with an id is stored and the storage refuses
  -- nothing, a page that starts anew on the storage and loads the session has the revision that
  -- the last checkpoint had.
  pub load_session-next_checkpoint_revision :
      (st : State) (fs : Fields)
      → Works st.store session
      → parsed (safe_read st.store session) ≡ some (obj fs)
      → truthy (get "id" (obj fs)) ≡ true
      → (load_session (fresh (next_checkpoint_revision stringify st).0.store)).0.revision
        ≡ (next_checkpoint_revision stringify st).1
  unfolding load_session next_checkpoint_revision
  load_session-next_checkpoint_revision st fs w stored e =
      let r = raise (st.revision + 1) (get "checkpointRevision" (obj fs)) in
      let st' = record st { revision = r } in
      rw (stored, store-save_session st' fs w e, revision-save_session stringify st' (obj fs))
        (raise-zero-stamped r fs)

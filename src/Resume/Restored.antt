-- ===== src/Resume/Restored.antt =====
-- What a restore guarantees of the session that it takes up.
use mathlib.Core.List.{Mem}
use ar_automation_agent.Prelude.{
  ℕ, zero, suc, ◌≤◌, ◌≡◌, ◌⊎◌, refl, Bool, true, false, not, ◌&&◌, ◌||◌, Option, none, some, List,
  ◌∷◌, arith, ltb, find_first-Mem, if◌then◌else◌, Option-cases, inl, inr, both_of_and, subst, sym,
  ap, none_of_or, not-eq-false, not-eq-true, guard-eq-some, ladder-eq-some, if_cases, ◌∙◌,
}
use ar_automation_agent.Prelude.Text.{Text}
use ar_automation_agent.Resume.Summary.{
  find_adoptable_server_session, server_session_as_saved_shape, Session, has, text_of, or_number,
  or_else, Location, clamp_variant_index, find_active_session_summary, is_terminal_session_summary,
  same_id, page_matches_current,
}
use ar_automation_agent.Resume.Meta.{
  Page, generating, remember_session_file_meta, apply_saved_session_meta,
}
use ar_automation_agent.Resume.Restore.{
  Around, Restored, is_foreign, load_session, saved_of, session_to_restore, restore_saved,
  restored_page, restored_injection, is_unknown, is_none, is_some_list, is_generating, is_cycling,
  restored_visible, restore_session_without_wrapper, visible_of,
}

-- A restore goes on to the session's page if none of the three refusals applies.
restore_saved-eq-some :
    (a : Around) (saved : Session) (p : Page) (r : Restored)
    → restore_saved a saved p ≡ some r
    → let server = find_active_session_summary a.location saved a.active_sessions in
      ((not (has saved.id) || a.handled (text_of saved.id)) ≡ false)
      × ((not (is_generating saved) && not (is_cycling saved)) ≡ false)
      × (is_unknown a server ≡ false)
      × (record {
        page = restored_page a saved server p;
        injects = restored_injection saved (restored_page a saved server p);
      }
          ≡ r)
unfolding restore_saved
restore_saved-eq-some a saved p r e = ladder-eq-some _ _ _ _ r e

clamp-le : (v : Option ℕ) (count : ℕ) → (clamp_variant_index v count ≤ count) ⊎ (count ≡ 0)
unfolding clamp_variant_index
clamp-le none count = inl (omega arith)
clamp-le (some n) count = ground arith

or_number-le : (a b n : ℕ) → a ≤ n → b ≤ n → or_number a b ≤ n
or_number-le zero b n h k = k
or_number-le (suc a) b n h k = h

restored_visible-le :
    (saved : Session) (server : Option Session) (arrived expected : ℕ)
    → (restored_visible saved server arrived expected ≤ or_number arrived expected)
      ⊎ (or_number arrived expected ≡ 0)
unfolding restored_visible
restored_visible-le saved server arrived expected =
    elim (clamp-le saved.visible (or_number arrived expected)) [
      | inr z ↦ inr z
      | inl h ↦ elim (clamp-le (visible_of server) (or_number arrived expected)) [
        | inr z ↦ inr z
        | inl k ↦ inl (or_number-le _ _ _ h (or_number-le _ _ _ k (first-le arrived expected)))
      ]
    ]
  where
    first-le : (m n : ℕ) → (if ltb 0 m then 1 else 0) ≤ or_number m n
    first-le zero n = omega arith
    first-le (suc m) n = grind arith

-- Neither set of settings changes the session.
remember_session_file_meta-id :
    (m : Session) (p : Page)
    → (remember_session_file_meta m p).current_session_id ≡ p.current_session_id
unfolding remember_session_file_meta
remember_session_file_meta-id m p =
    if_cases (λ (q : Page). q.current_session_id ≡ p.current_session_id) _ _ _ (λ _. refl)
      (λ _. refl)

apply_saved_session_meta-id :
    (s : Option Session) (p : Page)
    → (apply_saved_session_meta s p).current_session_id ≡ p.current_session_id
unfolding apply_saved_session_meta
apply_saved_session_meta-id none p = refl
apply_saved_session_meta-id (some s) p = remember_session_file_meta-id s p

restored_page-id :
    (a : Around) (saved : Session) (server : Option Session) (p : Page)
    → (restored_page a saved server p).current_session_id ≡ saved.id
unfolding restored_page
restored_page-id a saved server p =
    apply_saved_session_meta-id (some saved) _ ∙ apply_saved_session_meta-id server _

-- Where the server names sessions, the page's session is one of them and is not over.
abbrev pub IsNamed : Option (List Session) → Option Text → Type 0
IsNamed sessions id =
    (s : Session) (ss : List Session)
    → sessions ≡ some (s ∷ ss)
    → (t : Session) × Mem t (s ∷ ss)
      × (same_id id t ≡ true)
      × (is_terminal_session_summary t ≡ false)

-- What holds of the page after a restore.
pub record IsRestored (a : Around) (q : Page) : Type 0 where
  pub has_id : has q.current_session_id ≡ true
  pub open_still : a.handled (text_of q.current_session_id) ≡ false
  pub named : IsNamed a.active_sessions q.current_session_id
  pub generates : q.state ≡ generating
  pub shows :
      (q.visible_variant ≤ or_number q.arrived_variants q.expected_variants)
      ⊎ (or_number q.arrived_variants q.expected_variants ≡ 0)

abbrev is_live_summary : Location → Session → Session → Bool
is_live_summary l saved s =
    same_id saved.id s
    && page_matches_current l (or_else s.page_url saved.page_url)
    && not (is_terminal_session_summary s)

find_active-IsNamed :
    (l : Location) (saved : Session) (sessions : List Session) (t : Session)
    → find_active_session_summary l saved (some sessions) ≡ some t
    → Mem t sessions × (same_id saved.id t ≡ true) × (is_terminal_session_summary t ≡ false)
unfolding find_active_session_summary
find_active-IsNamed l saved sessions t e =
    let (i, f) = guard-eq-some (has saved.id) _ e in
    let (m, h) = find_first-Mem (is_live_summary l saved) sessions f in
    let page = page_matches_current l (or_else t.page_url saved.page_url) in
    let ended = is_terminal_session_summary t in
    let (both, live) = both_of_and (same_id saved.id t && page) (not ended) h in
    (m, (both_of_and (same_id saved.id t) page both).0, not-eq-true ended live)

-- A restore that is not refused over the server's sessions is of one of them.
not_unknown-IsNamed :
    (a : Around) (saved : Session)
    → is_unknown a (find_active_session_summary a.location saved a.active_sessions) ≡ false
    → IsNamed a.active_sessions saved.id
not_unknown-IsNamed a saved h s ss e =
    let l = a.location in
    elim (Option-cases (find_active_session_summary l saved (some (s ∷ ss)))) [
      | inl n ↦
          let refused : (is_some_list (some (s ∷ ss)) && is_none none) ≡ false = rw (e, n) at h in
          cc
      | inr (t, f) ↦ let (m, i, live) = find_active-IsNamed l saved (s ∷ ss) t f in (t, m, i, live)
    ]

restored_page-IsRestored :
    (a : Around) (saved : Session) (server : Option Session) (p : Page)
    → has saved.id ≡ true
    → a.handled (text_of saved.id) ≡ false
    → IsNamed a.active_sessions saved.id
    → IsRestored a (restored_page a saved server p)
unfolding restored_page
restored_page-IsRestored a saved server p i h n =
    let same : (restored_page a saved server p).current_session_id ≡ saved.id =
      restored_page-id a saved server p in
    record {
      has_id = subst (λ z. has z ≡ true) (sym same) i;
      open_still = subst (λ z. a.handled (text_of z) ≡ false) (sym same) h;
      named = subst (λ z. IsNamed a.active_sessions z) (sym same) n;
      generates = refl;
      shows = restored_visible-le saved server _ _;
    }

restore_saved-IsRestored :
    (a : Around) (saved : Session) (p : Page) (r : Restored)
    → restore_saved a saved p ≡ some r
    → IsRestored a r.page
restore_saved-IsRestored a saved p r e =
    let (i, _, u, q) = restore_saved-eq-some a saved p r e in
    let (known, h) = none_of_or (not (has saved.id)) (a.handled (text_of saved.id)) i in
    subst (λ (x : Restored). IsRestored a x.page) q
      (restored_page-IsRestored a saved
        (find_active_session_summary a.location saved a.active_sessions) p (not-eq-false _ known) h
        (not_unknown-IsNamed a saved u))

-- A restore takes up only a session that is open: it has an id that is not handled, the page then
-- generates, the variant that it shows is within the count where there is one, and if the server
-- names any sessions, one of them has this id and is not over.
pub restore_session_without_wrapper-IsRestored :
    (a : Around) (p : Page) (r : Restored)
    → restore_session_without_wrapper a p ≡ some r
    → IsRestored a r.page
unfolding restore_session_without_wrapper
restore_session_without_wrapper-IsRestored a p r e = elim (Option-cases (session_to_restore a)) [
  | inl n ↦ let t : none ≡ some r = rw (n, restore_session_without_wrapper) at e in cc
  | inr (saved, f) ↦
      restore_saved-IsRestored a saved p r (rw (f, restore_session_without_wrapper) at e)
]

load_session-foreign :
    (app_root : Option Text) (s : Session)
    → is_foreign app_root s ≡ true
    → (load_session app_root (some s)).0 ≡ none
unfolding load_session
load_session-foreign app_root s h =
    if_cases (λ (x : Option Session × Bool). x.0 ≡ none) (is_foreign app_root s) _ _ (λ _. refl)
      (λ g. cc)

session_to_restore-foreign :
    (a : Around) (s : Session)
    → is_foreign a.app_root s ≡ true
    → session_to_restore (record a { stored = some s })
      ≡ session_to_restore (record a { stored = none })
unfolding session_to_restore load_session find_adoptable_server_session
session_to_restore-foreign a s h =
    ap (λ o. server_session (saved_of o)) (load_session-foreign a.app_root s h)
  where
    server_session : Option Session → Option Session
    server_session (some t) = some t
    server_session none =
        elim (find_adoptable_server_session a.location a.handled a.active_sessions) [
          | none ↦ none
          | some t ↦ some (server_session_as_saved_shape t)
        ]

-- The stored session of another project is as good as none.
pub restore_session_without_wrapper-foreign :
    (a : Around) (s : Session) (p : Page)
    → is_foreign a.app_root s ≡ true
    → restore_session_without_wrapper (record a { stored = some s }) p
      ≡ restore_session_without_wrapper (record a { stored = none }) p
unfolding restore_session_without_wrapper restore_saved restored_page
restore_session_without_wrapper-foreign a s p h =
    ap (λ o. elim o [ none ↦ none | some t ↦ restore_saved a t p ])
      (session_to_restore-foreign a s h)

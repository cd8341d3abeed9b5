-- ===== src/Resume/Adopt.antt =====
-- Which session of the server's a page adopts.
use mathlib.Core.List.{Mem}
use ar_automation_agent.Prelude.{
  ◌≡◌, Bool, true, false, ◌||◌, some, List, arith, ltb, find_first-Mem,
}
use ar_automation_agent.Prelude.Text.{Text}
use ar_automation_agent.Resume.Summary.{
  Session, has, number, text_of, Location, page_matches_current, is_terminal_session_summary,
  is_adoptable_session_phase, is_adoptable, find_adoptable_server_session,
}

-- The session is live, on this page, has a file to restore from, and variants are expected of it.
pub record IsAdoptable (l : Location) (handled : Text → Bool) (s : Session) : Type 0 where
  pub has_id : has s.id ≡ true
  pub live : is_terminal_session_summary s ≡ false
  pub open_still : handled (text_of s.id) ≡ false
  pub names_page : has s.page_url ≡ true
  pub on_page : page_matches_current l s.page_url ≡ true
  pub has_file : (has s.preview_file || has s.source_file) ≡ true
  pub expects : ltb 0 (number s.expected_variants) ≡ true
  pub compares : is_adoptable_session_phase s ≡ true

is_adoptable-IsAdoptable :
    (l : Location) (handled : Text → Bool) (s : Session)
    → is_adoptable l handled s ≡ true
    → IsAdoptable l handled s
is_adoptable-IsAdoptable l handled s h = ground arith

-- The session that is adopted is one of the server's, and it is live, not yet handled, on this very
-- page by its own word, with a file to restore from and variants expected, in a phase in which they
-- are compared.
pub find_adoptable_server_session-IsAdoptable :
    (l : Location) (handled : Text → Bool) (sessions : List Session) (s : Session)
    → find_adoptable_server_session l handled (some sessions) ≡ some s
    → Mem s sessions × IsAdoptable l handled s
unfolding find_adoptable_server_session
find_adoptable_server_session-IsAdoptable l handled sessions s e =
    let (m, h) = find_first-Mem (is_adoptable l handled) sessions e in
    (m, is_adoptable-IsAdoptable l handled s h)

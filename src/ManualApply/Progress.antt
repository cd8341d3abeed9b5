-- ===== src/ManualApply/Progress.antt =====
-- The progress that is stored of an apply stays consistent, whatever happens in whatever order.
use ar_automation_agent.Prelude.{
  ℕ, zero, suc, ◌+◌, ◌<◌, ◌≡◌, refl, Bool, true, false, Option, none, some, arith, Bool-cases, inl,
  inr, ◌==◌, ◌&&◌,
}
use ar_automation_agent.ManualApply.Stored.{
  Applied, Entry, Storage, Here, or_count, or_missing, is_stale, renewed,
  read_stored_manual_apply_state, write_manual_apply_state, store_manual_apply_state, total_of,
  clear_stored_manual_apply_state, reset_manual_apply_progress, manual_apply_loading_text,
  should_resume_manual_apply_loading,
}
use ar_automation_agent.ManualApply.Dock.{
  Dock, set_pending_apply_loading, start_loading, stop_loading, same, hide_pending_apply_dock,
}

-- Of a positive total, the completed operations and the remaining ones are all.
abbrev pub IsConsistent : Applied → Type 0
IsConsistent a = (0 < a.total_ops) × (a.remaining_count + a.completed_ops ≡ a.total_ops)

abbrev pub EntryIsConsistent : Option Entry → Type 0
EntryIsConsistent none = Unit {0}
EntryIsConsistent (some e) = IsConsistent e.applied

abbrev pub IsGood : Storage → Type 0
IsGood s = EntryIsConsistent s.entry

abbrev pub AppliedIsConsistent : Option Applied → Type 0
AppliedIsConsistent none = Unit {0}
AppliedIsConsistent (some a) = IsConsistent a

pub read-IsGood :
    (h : Here) (s : Storage)
    → IsGood s
    → IsGood (read_stored_manual_apply_state h s).0
      × AppliedIsConsistent (read_stored_manual_apply_state h s).1
unfolding read_stored_manual_apply_state
read-IsGood h s g = go s.throws s.entry g
  where
    go :
        (t : Bool) (e : Option Entry)
        → EntryIsConsistent e
        → IsGood (read_stored_manual_apply_state h (record { entry = e; throws = t })).0
          × AppliedIsConsistent
              (read_stored_manual_apply_state h (record { entry = e; throws = t })).1
    go true e g = (g, tt)
    go false none g = (tt, tt)
    go false (some e) g = elim (Bool-cases (is_stale h e)) [
      | inl x ↦ rw x (tt, tt)
      | inr x ↦ rw x (g, g)
    ]

write-IsGood :
    (h : Here) (a : Applied) (s : Storage)
    → IsConsistent a
    → IsGood s
    → IsGood (write_manual_apply_state h a s)
unfolding write_manual_apply_state
write-IsGood h a s c g = elim (Bool-cases s.throws) [ inl e ↦ rw e g | inr e ↦ rw e c ]

or_count-pos : (a b : ℕ) → 0 < a → or_count a b ≡ a
or_count-pos zero b h = absurd (omega arith)
or_count-pos (suc a) b h = refl

renewed-IsConsistent :
    (h : Here) (e : Option Applied) (count : ℕ)
    → AppliedIsConsistent e
    → (total_of e count == 0 && count == 0) ≡ false
    → IsConsistent (renewed h e count)
unfolding renewed
renewed-IsConsistent h none count c t = ground arith
renewed-IsConsistent h (some a) count c t =
    rw (or_count-pos a.total_ops (or_count a.count count) c.0, or_count-pos a.total_ops count c.0) c

abbrev pub Keeps : (Applied → Applied) → Type 0
Keeps patch = (a : Applied) → IsConsistent a → IsConsistent (patch a)

pub store-IsGood :
    (h : Here) (count : ℕ) (patch : Applied → Applied) (s : Storage)
    → Keeps patch
    → IsGood s
    → IsGood (store_manual_apply_state h count patch s)
unfolding store_manual_apply_state
store-IsGood h count patch s k g =
    let (s', e) = read_stored_manual_apply_state h s in
    let (g', c) = read-IsGood h s g in
    elim (Bool-cases (total_of e count == 0 && count == 0)) [
      | inl z ↦ rw z g'
      | inr z ↦ rw z (
          write-IsGood h (patch (renewed h e count)) s' (k _ (renewed-IsConsistent h e count c z))
            g')
    ]

pub clear-IsGood : (s : Storage) → IsGood s → IsGood (clear_stored_manual_apply_state s)
unfolding clear_stored_manual_apply_state
clear-IsGood s g = elim (Bool-cases s.throws) [ inl e ↦ rw e g | inr e ↦ rw e tt ]

pub reset-IsGood :
    (h : Here) (count : ℕ) (s : Storage) → IsGood s → IsGood (reset_manual_apply_progress h count s)
unfolding reset_manual_apply_progress
reset-IsGood h count s g = elim (Bool-cases (count == 0)) [
  | inl z ↦ rw z g
  | inr z ↦ rw z (
      write-IsGood h (renewed h none count) s (renewed-IsConsistent h none count tt (ground arith))
        g)
]

loading_text-IsGood :
    (h : Here) (n : ℕ) (s : Storage) → IsGood s → IsGood (manual_apply_loading_text h n s).0
unfolding manual_apply_loading_text
loading_text-IsGood h n s g = (read-IsGood h s g).0

pub should_resume-IsGood :
    (h : Here) (n : ℕ) (s : Storage)
    → IsGood s
    → IsGood (should_resume_manual_apply_loading h n s).0
unfolding should_resume_manual_apply_loading
should_resume-IsGood h n s g = elim (Bool-cases (n == 0)) [
  | inl z ↦ rw z g
  | inr z ↦ rw z (read-IsGood h s g).0
]

-- Reading twice gives the same answer twice.
pub read-again :
    (h : Here) (s : Storage)
    → (read_stored_manual_apply_state h (read_stored_manual_apply_state h s).0).1
      ≡ (read_stored_manual_apply_state h s).1
unfolding read_stored_manual_apply_state
read-again h s = ground arith

pub store-none :
    (h : Here) (patch : Applied → Applied) (s : Storage)
    → (read_stored_manual_apply_state h s).1 ≡ none
    → IsGood s
    → IsGood (store_manual_apply_state h 0 patch s)
unfolding store_manual_apply_state
store-none h patch s e g = rw e (read-IsGood h s g).0

abbrev pub DockIsGood : Dock → Type 0
DockIsGood d = IsGood d.storage

pub set_loading-IsGood :
    (h : Here) (loading : Bool) (count : Option ℕ) (d : Dock)
    → DockIsGood d
    → DockIsGood (set_pending_apply_loading h loading count d)
unfolding set_pending_apply_loading start_loading stop_loading
set_loading-IsGood h loading count d g = elim (Bool-cases d.built) [
  | inr b ↦ rw b g
  | inl b ↦ elim (Bool-cases loading) [
    | inl l ↦
        rw (b, l)
          (loading_text-IsGood h (or_missing count d.count) _
            (store-IsGood h (or_missing count d.count) same d.storage (λ a c. c) g))
    | inr l ↦ rw (b, l) (clear-IsGood d.storage g)
  ]
]

pub hide-IsGood : (d : Dock) → DockIsGood d → DockIsGood (hide_pending_apply_dock d)
unfolding hide_pending_apply_dock
hide-IsGood d g = elim (Bool-cases d.built) [
  | inl b ↦ rw b (clear-IsGood d.storage g)
  | inr b ↦ rw b (clear-IsGood d.storage g)
]

-- ===== src/Session/Handled.antt =====
-- The ids of handled sessions in live-browser-session.js: what marking and clearing one does.
use Prim.Native.String.{String}
use text.Mathlib.Text.{◌==◌}
use text.Mathlib.TextEquality.{eq_iff}
use text.Mathlib.TextPositions.{eq_refl}
use ar_automation_agent.Prelude.{
  ℕ, zero, suc, ◌-◌, ◌≤◌, ◌<◌, ◌≡◌, refl, ap, Bool, true, false, Option, none, some, List, [], ◌∷◌,
  arith, if◌then◌else◌, Bool-cases, inl, inr, ◌++◌, keep, drop, length, some_of, All, All-keep,
  All-drop, All-snoc, length-append, length-keep-le, length-drop, ◌||◌,
}
use ar_automation_agent.Json.{Json, null, str, arr, Items, nil, cons, is_set}
use ar_automation_agent.Session.Store.{
  handled, Item, Store, safe_read, safe_write, safe_remove, Works,
}
use ar_automation_agent.Session.State.{
  ids_of, ids_in, ids_at, read_handled_ids, other_than, last_eight, items_of, is_handled,
  mark_handled, clear_handled, rewritten, item,
}

abbrev IsTruthy : String → Type 0
IsTruthy s = is_set s ≡ true

ids_of-set : (is : Items) → All IsTruthy (ids_of is)
ids_of-set nil = tt
ids_of-set (cons (str s) is) = elim (Bool-cases (is_set s)) [
  | inl e ↦ rw e (e, ids_of-set is)
  | inr e ↦ rw e (ids_of-set is)
]
ids_of-set (cons null is) = ids_of-set is
ids_of-set (cons _ is) = ids_of-set is

ids_in-set :
    (i : Item) (v : Option Json) → IsTruthy i.text → All IsTruthy (ids_in (record i { parsed = v }))
ids_in-set i none h = (h, tt)
ids_in-set i (some (arr is)) h = ids_of-set is
ids_in-set i (some (str s)) h = elim (Bool-cases (is_set s)) [
  | inl e ↦ rw e (e, tt)
  | inr e ↦ rw e (h, tt)
]
ids_in-set i (some null) h = (h, tt)
ids_in-set i (some _) h = (h, tt)

ids_at-set : (i : Option Item) → All IsTruthy (ids_at i)
ids_at-set none = tt
ids_at-set (some i) = elim (Bool-cases (is_set i.text)) [
  | inl e ↦ rw e (ids_in-set i i.parsed e)
  | inr e ↦ rw e tt
]

-- No empty id is ever read.
read_handled_ids-set : (s : Store) → All IsTruthy (read_handled_ids s)
unfolding read_handled_ids
read_handled_ids-set s = ids_at-set (safe_read s handled)

ids_of-items_of : (ids : List String) → All IsTruthy ids → ids_of (items_of ids) ≡ ids
ids_of-items_of [] h = refl
ids_of-items_of (s ∷ ss) h = rw h.0 (ap (s ∷◌) (ids_of-items_of ss h.1))

-- Membership of an id as `includes` tests it.
abbrev has : String → List String → Bool
has id ids = some_of (λ existing. existing == id) ids

has-append : (id : String) (xs ys : List String) → has id (xs ++ ys) ≡ (has id xs || has id ys)
has-append id [] ys = refl
has-append id (x ∷ xs) ys = ground (arith, has-append id xs ys)

has-keep_other :
    (id other : String) (xs : List String)
    → has other (keep (other_than id) xs) ≡ (if other == id then false else has other xs)
has-keep_other id other [] = ground arith
has-keep_other id other (x ∷ xs) =
    ground (arith, eq_iff x id, eq_iff other id, eq_iff x other, has-keep_other id other xs)

read-removed : (s : Store) → Works s handled → read_handled_ids (safe_remove s handled) ≡ []
unfolding read_handled_ids safe_remove safe_read
read-removed s w = rw w.removes (rw w.reads)

-- Dropping all but the last eight keeps the last one.
has-drop_last :
    (id : String) (n : ℕ) (xs : List String)
    → n ≤ length xs
    → has id (drop n (xs ++ id ∷ [])) ≡ true
has-drop_last id zero xs h = rw (has-append id xs (id ∷ [])) (ground (arith, eq_refl id))
has-drop_last id (suc n) [] h = absurd (omega arith)
has-drop_last id (suc n) (x ∷ xs) h = has-drop_last id n xs (omega arith)

module _ (stringify : Json → String)
    (stringify-set : (v : Json) → is_set (stringify v) ≡ true) where
  -- Ids that are written are read back.
  read-written :
      (s : Store) (ids : List String)
      → Works s handled
      → All IsTruthy ids
      → read_handled_ids (safe_write s handled (item stringify (arr (items_of ids)))) ≡ ids
  unfolding read_handled_ids safe_write safe_read
  read-written s ids w h =
      rw (w.writes (item stringify (arr (items_of ids))))
        (rw (w.reads, stringify-set (arr (items_of ids))) (ids_of-items_of ids h))

  read-rewritten :
      (s : Store) (ids : List String)
      → Works s handled
      → All IsTruthy ids
      → read_handled_ids (rewritten stringify s ids) ≡ ids
  read-rewritten s [] w h = read-removed s w
  read-rewritten s (id ∷ ids) w h = read-written s (id ∷ ids) w h

  abbrev marked : String → List String → List String
  marked id ids = last_eight (keep (other_than id) ids ++ id ∷ [])

  read-mark_handled :
      (s : Store) (id : String)
      → Works s handled
      → IsTruthy id
      → read_handled_ids (mark_handled stringify s id) ≡ marked id (read_handled_ids s)
  unfolding mark_handled
  read-mark_handled s id w h = rw h (
      read-written s (marked id (read_handled_ids s)) w (
        All-drop IsTruthy _ _
          (All-snoc IsTruthy _ id (All-keep IsTruthy _ _ (read_handled_ids-set s)) h)))

  read-clear_handled :
      (s : Store) (id : String)
      → Works s handled
      → IsTruthy id
      → read_handled_ids (clear_handled stringify s id) ≡ keep (other_than id) (read_handled_ids s)
  unfolding clear_handled
  read-clear_handled s id w h = rw h (
      read-rewritten s (keep (other_than id) (read_handled_ids s)) w
        (All-keep IsTruthy _ _ (read_handled_ids-set s)))

  -- Once a session is marked as handled it is found to be, and at most eight ids are remembered:
  -- if the storage refuses nothing, and the id is not empty.
  pub is_handled-mark_handled :
      (s : Store) (id : String)
      → Works s handled
      → IsTruthy id
      → (is_handled (mark_handled stringify s id) id ≡ true)
        × (length (read_handled_ids (mark_handled stringify s id)) ≤ 8)
  unfolding is_handled
  is_handled-mark_handled s id w h =
      let kept = keep (other_than id) (read_handled_ids s) in
      let all = kept ++ id ∷ [] in
      let n = length-append kept (id ∷ []) in
      (
        rw (read-mark_handled s id w h, h)
            (has-drop_last id (length all - 8) kept (omega (arith, n))),
        rw (read-mark_handled s id w h) (omega (arith, length-drop (length all - 8) all)),
      )

  -- While fewer than eight ids are remembered, marking one leaves every other id as it was.
  pub is_handled-mark_handled_other :
      (s : Store) (id other : String)
      → Works s handled
      → IsTruthy id
      → length (read_handled_ids s) < 8
      → (other == id) ≡ false
      → is_handled (mark_handled stringify s id) other ≡ is_handled s other
  unfolding is_handled
  is_handled-mark_handled_other s id other w h room ne =
      let kept = keep (other_than id) (read_handled_ids s) in
      let all = kept ++ id ∷ [] in
      let fits : length all - 8 ≡ 0 = omega (
        arith,
        length-append kept (id ∷ []),
        length-keep-le (other_than id) (read_handled_ids s),
      ) in
      rw (read-mark_handled s id w h, fits, has-append other kept (id ∷ []))
        (ground
          (arith, eq_iff id other, eq_iff other id, has-keep_other id other (read_handled_ids s)))

  -- Clearing an id takes back that one alone: it is handled no longer, and every other id is as
  -- it was, if the storage refuses nothing and the id is not empty.
  pub is_handled-clear_handled :
      (s : Store) (id other : String)
      → Works s handled
      → IsTruthy id
      → is_handled (clear_handled stringify s id) other
        ≡ (if other == id then false else is_handled s other)
  unfolding is_handled
  is_handled-clear_handled s id other w h =
      rw (read-clear_handled s id w h, has-keep_other id other (read_handled_ids s)) (ground arith)

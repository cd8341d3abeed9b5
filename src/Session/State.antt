-- ===== src/Session/State.antt =====
-- `createLiveBrowserSessionState`: its closures are functions on the state that they share.
use Prim.Native.String.{String}
use text.Mathlib.Text.{◌==◌}
use ar_automation_agent.Prelude.{
  ℕ, ◌+◌, ◌-◌, Bool, not, Option, none, some, List, [], ◌∷◌, ◌++◌, if◌then◌else◌, max, keep,
  some_of, drop, length, ◌&&◌,
}
use ar_automation_agent.Prelude.Int.{pos}
use ar_automation_agent.Json.{
  Json, null, int, str, arr, obj, Items, nil, cons, is_set, truthy, get, set_field,
}
use ar_automation_agent.Session.Store.{
  session, handled, scroll, Item, Store, safe_read, safe_write, safe_remove,
}

-- `checkpointRevision` starts at 0 and only grows.
pub record State : Type 0 where
  pub store : Store
  pub revision : ℕ

abbrev pub fresh : Store → State
fresh s = record { store = s; revision = 0 }

-- `if (Number.isInteger(v)) checkpointRevision = Math.max(checkpointRevision, v)`
unfoldable pub raise : ℕ → Option Json → ℕ
raise r (some (int (pos n))) = max r n
raise r _ = r

-- The text that is stored, if it is not empty and parses.
abbrev pub parsed : Option Item → Option Json
parsed none = none
parsed (some i) = if is_set i.text then i.parsed else none

-- Reading the field of null throws, and what throws gives null.
unfoldable pub loaded : State → Option Json → State × Option Json
unfolding raise get
loaded st none = (st, none)
loaded st (some null) = (st, none)
loaded st (some v) =
    (record st { revision = raise st.revision (get "checkpointRevision" v) }, some v)

unfoldable pub load_session : State → State × Option Json
unfolding loaded safe_read
load_session st = loaded st (parsed (safe_read st.store session))

unfoldable pub seed_checkpoint_revision : State → Option Json → State × ℕ
unfolding raise
seed_checkpoint_revision st v = let r = raise st.revision v in (record st { revision = r }, r)

unfoldable pub clear_session : State → State
unfolding safe_remove
clear_session st = record st { store = safe_remove st.store session }

-- The nonempty strings of an array.
abbrev pub ids_of : Items → List String
ids_of nil = []
ids_of (cons (str s) is) = if is_set s then s ∷ ids_of is else ids_of is
ids_of (cons _ is) = ids_of is

-- A text that is no array and no nonempty string is an id itself.
abbrev pub ids_in : Item → List String
ids_in i = elim i.parsed [
  | some (arr is) ↦ ids_of is
  | some (str s) ↦ if is_set s then s ∷ [] else i.text ∷ []
  | _ ↦ i.text ∷ []
]

abbrev pub ids_at : Option Item → List String
ids_at none = []
ids_at (some i) = if is_set i.text then ids_in i else []

unfoldable pub read_handled_ids : Store → List String
unfolding safe_read
read_handled_ids s = ids_at (safe_read s handled)

abbrev pub other_than : String → String → Bool
other_than id existing = not (existing == id)

-- `ids.slice(-8)`
abbrev pub last_eight : List String → List String
last_eight ids = drop (length ids - 8) ids

unfoldable pub is_handled : Store → String → Bool
unfolding read_handled_ids
is_handled s id = is_set id && some_of (λ existing. existing == id) (read_handled_ids s)

unfoldable pub clear_scroll_y : Store → Store
unfolding safe_remove
clear_scroll_y s = safe_remove s scroll

abbrev pub items_of : List String → Items
items_of [] = nil
items_of (s ∷ ss) = cons (str s) (items_of ss)

-- The calls of a page.
pub data Call : Type 0 where
  saves : Json → Call
  loads clears nexts : Call
  seeds : Option Json → Call
  marks : String → Call
  forgets : String → Call
  scrolls : Json → Call
  unscrolls : Call

-- `JSON.stringify` gives the text of what is written.
module _ (stringify : Json → String) where
  abbrev pub item : Json → Item
  item v = record { text = stringify v; parsed = some v }

  -- Only an object has an id. Its revision is written anew.
  unfoldable pub save_session : State → Json → State
  unfolding truthy get set_field safe_write
  save_session st (obj fs) =
      if truthy (get "id" (obj fs))
      then record st {
        store =
            safe_write st.store session
              (item (obj (set_field "checkpointRevision" (int (pos st.revision)) fs)));
      }
      else st
  save_session st _ = st

  abbrev pub saved_again : State × Option Json → State
  saved_again (st, none) = st
  saved_again (st, some v) = save_session st v

  -- `loadSession` may raise the revision once more, before it is written and returned.
  unfoldable pub next_checkpoint_revision : State → State × ℕ
  unfolding load_session save_session
  next_checkpoint_revision st =
      let st' = saved_again (load_session (record st { revision = st.revision + 1 })) in
      (st', st'.revision)

  unfoldable pub mark_handled : Store → String → Store
  unfolding read_handled_ids safe_write
  mark_handled s id =
      if is_set id
      then safe_write s handled (
          item (arr (items_of (last_eight (keep (other_than id) (read_handled_ids s) ++ id ∷ [])))))
      else s

  abbrev pub rewritten : Store → List String → Store
  rewritten s [] = safe_remove s handled
  rewritten s (id ∷ ids) = safe_write s handled (item (arr (items_of (id ∷ ids))))

  unfoldable pub clear_handled : Store → String → Store
  unfolding read_handled_ids safe_write safe_remove
  clear_handled s id =
      if is_set id
      then rewritten s (keep (other_than id) (read_handled_ids s))
      else safe_remove s handled

  -- `String(y)`: the text of a number.
  unfoldable pub write_scroll_y : Store → Json → Store
  unfolding safe_write
  write_scroll_y s y = safe_write s scroll (item y)

  unfoldable pub step : State → Call → State
  unfolding load_session save_session next_checkpoint_revision seed_checkpoint_revision
  step st (saves v) = save_session st v
  step st loads = (load_session st).0
  step st clears = clear_session st
  step st nexts = (next_checkpoint_revision st).0
  step st (seeds v) = (seed_checkpoint_revision st v).0
  step st (marks id) = record st { store = mark_handled st.store id }
  step st (forgets id) = record st { store = clear_handled st.store id }
  step st (scrolls y) = record st { store = write_scroll_y st.store y }
  step st unscrolls = record st { store = clear_scroll_y st.store }

  unfoldable pub run : State → List Call → State
  unfolding step
  run st [] = st
  run st (c ∷ cs) = run (step st c) cs

-- ===== src/Session/Store.antt =====
-- The page's storage as `safeRead`, `safeWrite` and `safeRemove` use it. A storage call may throw:
-- the storage says at which key, and for which value.
use Prim.Native.String.{String}
use ar_automation_agent.Prelude.{Bool, true, false, Option, none, some, if◌then◌else◌, ◌≡◌}
use ar_automation_agent.Json.{Json}

-- The three keys under one prefix, which differ.
pub data Key : Type 0 where
  session handled scroll : Key

-- A stored text, with what `JSON.parse` makes of it, `none` if it throws.
pub record Item : Type 0 where
  pub text : String
  pub parsed : Option Json

pub record Store : Type 0 where
  pub items : Key → Option Item
  pub get_throws : Key → Bool
  pub set_throws : Key → Item → Bool
  pub remove_throws : Key → Bool

abbrev pub same_key : Key → Key → Bool
same_key session session = true
same_key handled handled = true
same_key scroll scroll = true
same_key _ _ = false

abbrev pub put : Key → Option Item → (Key → Option Item) → Key → Option Item
put k v items j = if same_key k j then v else items j

unfoldable pub safe_read : Store → Key → Option Item
safe_read s k = if s.get_throws k then none else s.items k

unfoldable pub safe_write : Store → Key → Item → Store
safe_write s k v = if s.set_throws k v then s else record s { items = put k (some v) s.items }

unfoldable pub safe_remove : Store → Key → Store
safe_remove s k = if s.remove_throws k then s else record s { items = put k none s.items }

-- The storage refuses nothing at the key.
pub record Works (s : Store) (k : Key) : Type 0 where
  pub reads : s.get_throws k ≡ false
  pub writes : (i : Item) → s.set_throws k i ≡ false
  pub removes : s.remove_throws k ≡ false

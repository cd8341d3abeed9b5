-- ===== src/Json.antt =====
-- The values of JSON that the live scripts store and read, and what JavaScript makes of them:
-- the truth of a value, its fields, and the integers among its numbers.
use Prim.Native.String.{String}
use text.Mathlib.Text.{◌==◌}
use text.Mathlib.TextEquality.{eq_iff}
use ar_automation_agent.Prelude.{
  zero, suc, ◌≡◌, refl, Bool, true, false, not, Option, none, some, if◌then◌else◌, arith,
}
use ar_automation_agent.Prelude.Int.{ℤ, pos, negsuc}

-- `fraction` is a number that is no integer, by its digits.
mutual
  pub data Json : Type 0 where
    null : Json
    bool : Bool → Json
    int : ℤ → Json
    fraction : String → Json
    str : String → Json
    arr : Items → Json
    obj : Fields → Json

  pub data Items : Type 0 where
    nil : Items
    cons : Json → Items → Items

  pub data Fields : Type 0 where
    end : Fields
    field : String → Json → Fields → Fields

-- `!!v`. A missing value is `undefined`.
abbrev pub is_set : String → Bool
is_set s = not (s == "")

abbrev is_zero : ℤ → Bool
is_zero (pos zero) = true
is_zero (pos (suc n)) = false
is_zero (negsuc n) = false

unfoldable pub truthy : Option Json → Bool
truthy none = false
truthy (some null) = false
truthy (some (bool b)) = b
truthy (some (int z)) = not (is_zero z)
truthy (some (str s)) = is_set s
truthy (some _) = true

-- The field of an object; a field set twice keeps its first place.
unfoldable pub find_field : String → Fields → Option Json
find_field k end = none
find_field k (field j v fs) = if j == k then some v else find_field k fs

unfoldable pub set_field : String → Json → Fields → Fields
set_field k v end = field k v end
set_field k v (field j w fs) = if j == k then field j v fs else field j w (set_field k v fs)

-- `v.k` of a value that is no null; strings, numbers and arrays have no such field.
unfoldable pub get : String → Json → Option Json
unfolding find_field
get k (obj fs) = find_field k fs
get k _ = none

pub find_field-set_field :
    (k j : String) (v : Json) (fs : Fields)
    → find_field j (set_field k v fs) ≡ (if k == j then some v else find_field j fs)
unfolding find_field set_field
find_field-set_field k j v end = refl
find_field-set_field k j v (field i w fs) =
    ground (arith, eq_iff k j, eq_iff i k, eq_iff i j, find_field-set_field k j v fs)

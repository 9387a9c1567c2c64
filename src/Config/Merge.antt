-- ===== src/Config/Merge.antt =====
-- `Merge` of pkg/executor/config.go: the files of a configuration, later over earlier, object by
-- object. A decoded document is a `Value`; a Go map is an object whose keys differ.
pub mod Laws
use ks_upgrade.Base.{
  String, ◌==◌, ℤ, Bool, true, false, ◌||◌, ◌&&◌, not, if◌then◌else◌, Option, none, some,
}

mutual
  pub data Value : Type 0 where
    null : Value
    flag : Bool → Value
    num : ℤ → Value
    str : String → Value
    array : Items → Value
    object : Fields → Value

  pub data Items : Type 0 where
    nil : Items
    cons : Value → Items → Items

  pub data Fields : Type 0 where
    end : Fields
    field : String → Value → Fields → Fields

unfoldable pub lookup : String → Fields → Option Value
lookup k end = none
lookup k (field j v fs) = if j == k then some v else lookup k fs

unfoldable pub insert : String → Value → Fields → Fields
insert k v end = field k v end
insert k v (field j w fs) = if j == k then field k v fs else field j w (insert k v fs)

unfoldable pub has : String → Fields → Bool
has k end = false
has k (field j v fs) = (j == k) || has k fs

-- `merge_value base[k] v` is what the loop writes for the key `k` of the override.
unfoldable mutual
  pub merge_value : Option Value → Value → Value
  merge_value b (object o) = elim b [ some (object m) ↦ object (merge_into m m o) | _ ↦ object o ]
  merge_value b null = null
  merge_value b (flag x) = flag x
  merge_value b (num n) = num n
  merge_value b (str s) = str s
  merge_value b (array xs) = array xs

  -- The loop over the override, from a copy of the base.
  pub merge_into : Fields → Fields → Fields → Fields
  merge_into base merged end = merged
  merge_into base merged (field k v o) =
      merge_into base (insert k (merge_value (lookup k base) v) merged) o

-- A nil map is `none`.
unfoldable pub merge : Option Fields → Option Fields → Option Fields
merge none override = override
merge base none = base
merge (some b) (some o) = some (merge_into b b o)

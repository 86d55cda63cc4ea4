-- ===== src/Objects/Types.antt =====
-- `htable_type` on a valid table, and the test of a key's type that the commands make.
use hyperkv.Base.{ℕ, ◌≤◌, Option, none, some, ◌≡◌, ok, Str, codes}
use hyperkv.Helper.Hash.{max_size}
use hyperkv.HTable.{htable_search}
use hyperkv.HTable.Search.{Located, htable_search-Located}
use hyperkv.HTable.Valid.{IsValid}
use hyperkv.Objects.{type_name, htable_type}
use hyperkv.Slots.View.{view, view-Holds, view-Lacks}
use hyperkv.Value.{Value, FieldTable, Store}

-- The type of what a key holds.
abbrev pub type_of : Option (Value FieldTable) → Str
type_of none = codes "none"
type_of (some v) = type_name v

module _ (ht : Store) (valid : IsValid ht) (small : ht.size ≤ max_size) (key : Str) where
  -- On a valid table of at most `max_size` slots `htable_type` names the type of what the table holds
  -- under the key.
  pub htable_type-view : htable_type ht key ≡ ok (type_of (view ht.items key))
  unfolding htable_type
  htable_type-view =
      let (found, run, located) = htable_search-Located ht valid.arranged small key in
      go found run located
    where
      go :
          (found : Option (ℕ × Value FieldTable))
          → htable_search ht key ≡ ok found
          → Located ht.items key found
          → htable_type ht key ≡ ok (type_of (view ht.items key))
      go none run lacks = rw (run, view-Lacks ht.items key lacks)
      go (some (p, v)) run held = rw (run, view-Holds ht.items p key v valid.arranged.unique held)

-- ===== src/Value.antt =====
-- What an item of a table stores: the C struct's `type` and its `void *value` together.
pub mod Safe
use hyperkv.Base.{Str, Bool, true, false}
use hyperkv.HTable.{HashTable}
use hyperkv.List.{LinkedList}
use hyperkv.Set.{StrSet}

-- `H` is the type of the tables that an item may hold.
pub data Value (H : Type 0) : Type 0 where
  str_t : Str → Value H
  hash_t : H → Value H
  list_t : LinkedList → Value H
  set_t : StrSet → Value H

-- The table of a hash's fields is filled by `htable_set` alone, so that it holds strings and never
-- another table.
abbrev pub FieldTable : Type 0
FieldTable = HashTable (Value ⊥)

-- The table of the server.
abbrev pub Store : Type 0
Store = HashTable (Value FieldTable)

abbrev pub is_str : {H : Type 0} → Value H → Bool
is_str (str_t s) = true
is_str _ = false

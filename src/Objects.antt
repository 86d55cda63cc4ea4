-- ===== src/Objects.antt =====
-- The operations of src/htable.c on items of every type, and what they share.
pub mod Hashes
pub mod Lists
pub mod Sets
pub mod Last
pub mod Types
pub mod Safe
use hyperkv.Base.{ℕ, Option, none, some, Run, ok, fault, Fault, ◌>>=◌, Str, codes}
use hyperkv.HTable.{htable_search}
use hyperkv.List.{LinkedList}
use hyperkv.Set.{StrSet}
use hyperkv.Value.{Value, str_t, hash_t, list_t, set_t, FieldTable, Store}

-- The casts of an item's `void *value`.
abbrev pub as_hash : Value FieldTable → Run FieldTable
as_hash (hash_t h) = ok h
as_hash _ = fault Fault.type_confusion

abbrev pub as_list : Value FieldTable → Run LinkedList
as_list (list_t l) = ok l
as_list _ = fault Fault.type_confusion

abbrev pub as_set : Value FieldTable → Run StrSet
as_set (set_t s) = ok s
as_set _ = fault Fault.type_confusion

abbrev pub type_name : Value FieldTable → Str
type_name (str_t s) = codes "string"
type_name (hash_t h) = codes "hash"
type_name (list_t l) = codes "list"
type_name (set_t s) = codes "set"

unfoldable pub htable_type : Store → Str → Run Str
htable_type ht key = do
  item ← htable_search ht key
  elim item [ none ↦ ok (codes "none") | some (_, v) ↦ ok (type_name v) ]

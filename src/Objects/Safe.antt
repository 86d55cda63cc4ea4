-- ===== src/Objects/Safe.antt =====
-- The casts and the type of a sound table's items.
use hyperkv.Base.{Fault, List, Str, Safe, Safe-bind, Safe-option}
use hyperkv.HTable.Sound.{IsSound, search-Safe}
use hyperkv.List.Seq.{IsSeq}
use hyperkv.Objects.{as_hash, as_list, as_set, type_name, htable_type}
use hyperkv.Set.Safe.{Any}
use hyperkv.Value.{Value, str_t, hash_t, list_t, set_t, FieldTable, Store}
use hyperkv.Value.Safe.{IsText, IsWhole, IsSafeStore}

pub as_hash-Safe : (v : Value FieldTable) → IsWhole v → Safe (IsSound IsText) (as_hash v)
as_hash-Safe (hash_t h) whole = Safe.returns h whole
as_hash-Safe (str_t s) whole = Safe.fails Fault.type_confusion tt
as_hash-Safe (list_t l) whole = Safe.fails Fault.type_confusion tt
as_hash-Safe (set_t s) whole = Safe.fails Fault.type_confusion tt

pub as_list-Safe :
    (v : Value FieldTable) → IsWhole v → Safe (λ ls. (vs : List Str) × IsSeq ls vs) (as_list v)
as_list-Safe (list_t l) whole = Safe.returns l whole
as_list-Safe (str_t s) whole = Safe.fails Fault.type_confusion tt
as_list-Safe (hash_t h) whole = Safe.fails Fault.type_confusion tt
as_list-Safe (set_t s) whole = Safe.fails Fault.type_confusion tt

pub as_set-Safe : (v : Value FieldTable) → IsWhole v → Safe (IsSound Any) (as_set v)
as_set-Safe (set_t s) whole = Safe.returns s whole
as_set-Safe (str_t s) whole = Safe.fails Fault.type_confusion tt
as_set-Safe (list_t l) whole = Safe.fails Fault.type_confusion tt
as_set-Safe (hash_t h) whole = Safe.fails Fault.type_confusion tt

pub htable_type-Safe :
    (ht : Store) → IsSafeStore ht → (key : Str) → Safe (λ _. Unit) (htable_type ht key)
unfolding htable_type
htable_type-Safe ht sound key =
    Safe-bind _ (search-Safe sound key)
      (Safe-option _ _ _ (λ _. Safe.returns _ tt) λ x found. Safe.returns (type_name x.1) tt)

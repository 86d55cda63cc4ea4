-- ===== src/Strings/Safe.antt =====
-- `htable_set` and `htable_get` keep a table sound.
use hyperkv.Base.{true, none, some, Fault, Str, Safe, Safe-bind, Safe-option}
use hyperkv.HTable.{HashTable}
use hyperkv.HTable.Safe.{htable_insert-Safe}
use hyperkv.HTable.Sound.{IsSound, search-Safe, locate_loop-Safe, write_value-IsSound}
use hyperkv.Strings.{htable_update_str, set_found, htable_set, as_string, htable_get}
use hyperkv.Value.{Value, str_t, hash_t, list_t, set_t}

module _ {H : Type 0} (P : Value H → Type 0) (strings : (s : Str) → P (str_t s))
    (ht : HashTable (Value H)) (sound : IsSound P ht) (key : Str) where
  htable_update_str-Safe : (value : Str) → Safe (IsSound P) (htable_update_str ht key value)
  unfolding htable_update_str
  htable_update_str-Safe value = Safe-bind _ (locate_loop-Safe sound key ht.size 0) (
      Safe-option _ _ _ (λ _. Safe.returns ht sound)
        λ x found.
          Safe.returns _
            (write_value-IsSound sound key x.0 x.1 (str_t value) found (strings value)))

  set_found-Safe :
      (value : Str) (v : Value H) → Safe (λ r. IsSound P r.0) (set_found ht key value v)
  set_found-Safe value (str_t s) =
      Safe-bind _ (htable_update_str-Safe value) λ r z. Safe.returns (r, true) z
  set_found-Safe value (hash_t h) = Safe.returns _ sound
  set_found-Safe value (list_t l) = Safe.returns _ sound
  set_found-Safe value (set_t s) = Safe.returns _ sound

  pub htable_set-Safe : (value : Str) → Safe (λ r. IsSound P r.0) (htable_set ht key value)
  unfolding htable_set
  htable_set-Safe value = Safe-bind _ (search-Safe sound key) (
      Safe-option _ _ _
        (λ _.
          Safe-bind _ (htable_insert-Safe P ht sound key (str_t value) (strings value))
            λ r z. Safe.returns (r, true) z)
        λ x found. set_found-Safe value x.1)

pub as_string-Safe : {H : Type 0} (v : Value H) → Safe (λ _. Unit) (as_string v)
as_string-Safe (str_t s) = Safe.returns s tt
as_string-Safe (hash_t h) = Safe.fails Fault.type_confusion tt
as_string-Safe (list_t l) = Safe.fails Fault.type_confusion tt
as_string-Safe (set_t s) = Safe.fails Fault.type_confusion tt

pub htable_get-Safe :
    {H : Type 0} {P : Value H → Type 0} {ht : HashTable (Value H)}
    → IsSound P ht
    → (key : Str) → Safe (λ _. Unit) (htable_get ht key)
unfolding htable_get
htable_get-Safe sound key = Safe-bind _ (search-Safe sound key) (
    Safe-option _ _ _ (λ _. Safe.returns none tt)
      λ x found. Safe-bind _ (as_string-Safe x.1) λ s _. Safe.returns (some s) tt)

-- ===== src/Strings.antt =====
-- The string operations of src/htable.c. They serve the server's table and the tables of fields.
pub mod Laws
pub mod Lost
pub mod Safe
use hyperkv.Base.{ℕ, Bool, true, false, Option, none, some, Run, ok, fault, Fault, ◌>>=◌, Str}
use hyperkv.HTable.{HashTable, htable_search, htable_insert, locate_loop, write_value}
use hyperkv.Value.{Value, str_t, hash_t, list_t, set_t}

module _ {H : Type 0} where
  unfoldable pub htable_update_str : HashTable (Value H) → Str → Str → Run (HashTable (Value H))
  unfolding locate_loop write_value
  htable_update_str ht key value = do
    found ← locate_loop ht.size 0 ht key
    elim found [ none ↦ ok ht | some (hash, _) ↦ ok (write_value ht key hash (str_t value)) ]

  -- The item's type, as the branches of `htable_set` ask for it.
  abbrev pub set_found :
      HashTable (Value H) → Str → Str → Value H → Run (HashTable (Value H) × Bool)
  set_found ht key value (str_t old) = htable_update_str ht key value >>= λ ht'. ok (ht', true)
  set_found ht key value _ = ok (ht, false)

  unfoldable pub htable_set : HashTable (Value H) → Str → Str → Run (HashTable (Value H) × Bool)
  htable_set ht key value = do
    item ← htable_search ht key
    elim item [
      | none ↦ htable_insert ht key (str_t value) >>= λ ht'. ok (ht', true)
      | some (_, v) ↦ set_found ht key value v
    ]

  -- `(char *)res->value` of an item that is no string reads another object as text.
  abbrev pub as_string : Value H → Run Str
  as_string (str_t s) = ok s
  as_string _ = fault Fault.type_confusion

  unfoldable pub htable_get : HashTable (Value H) → Str → Run (Option Str)
  htable_get ht key = do
    res ← htable_search ht key
    elim res [ none ↦ ok none | some (_, v) ↦ as_string v >>= λ s. ok (some s) ]

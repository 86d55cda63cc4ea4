-- ===== src/HTable.antt =====
-- The open-addressing table of src/htable.c, over any type of values. Logging is left out.
pub mod Search
pub mod Insert
pub mod Resize
pub mod Valid
pub mod Delete
pub mod Laws
pub mod Sound
pub mod Safe
pub mod Update
use hyperkv.Base.{
  ℕ, zero, suc, ◌+◌, ◌-◌, ◌*◌, ◌/◌, Bool, true, false, List, [], ◌∷◌, Option, none, some, Run, ok,
  fault, Fault, ◌>>=◌, int, at, Str, str_eq, ltb, if◌then◌else◌, set, replicate,
}
use hyperkv.Helper.Hash.{hash_func}
use hyperkv.Helper.Prime.{next_prime}
use hyperkv.Slots.{Slot, empty, deleted, item}

abbrev pub ht_base_size : ℕ
ht_base_size = 2

pub record HashTable {ℓ} (V : Type ℓ) : Type ℓ where
  pub size : ℕ
  pub used : ℕ
  pub items : List (Slot V)

unfoldable pub htable_init {ℓ} : {V : Type ℓ} → ℕ → Run (HashTable V)
htable_init size = do
  prime ← next_prime size
  ok (record { size = prime; used = 0; items = replicate prime empty })

module _ {ℓ} {V : Type ℓ} where
  -- The loop of `htable_search`, `htable_del` and the `htable_update_` functions: the slot at which
  -- it finds the key, with the value there.
  unfoldable pub locate_loop : ℕ → ℕ → HashTable V → Str → Run (Option (ℕ × V))
  locate_loop zero i ht key = ok none
  locate_loop (suc rounds) i ht key =
      let rest = locate_loop rounds (i + 1) ht key in
      do
        hash ← hash_func key ht.size i
        cur ← at ht.items hash
        elim cur [
          | empty ↦ ok none
          | deleted ↦ rest
          | item k v ↦ if str_eq k key then ok (some (hash, v)) else rest
        ]

  -- The pointer that it returns is the slot's index, with the value there.
  unfoldable pub htable_search : HashTable V → Str → Run (Option (ℕ × V))
  unfolding locate_loop
  htable_search ht key = locate_loop ht.size 0 ht key

  -- The loop of `htable_insert`: the first slot on the key's path that is free.
  unfoldable pub free_loop : ℕ → ℕ → HashTable V → Str → Run (Option ℕ)
  free_loop zero i ht key = ok none
  free_loop (suc rounds) i ht key =
      let rest = free_loop rounds (i + 1) ht key in
      do
        hash ← hash_func key ht.size i
        cur ← at ht.items hash
        elim cur [ empty ↦ ok (some hash) | deleted ↦ ok (some hash) | item k v ↦ rest ]

  -- `int load = ht->used * 100 / ht->size`
  pub load : HashTable V → Run ℕ
  load ht = do percent ← int (ht.used * 100); ok (percent / ht.size)

  -- `insert` stands for `htable_insert`, which calls `htable_resize` and is called by it.
  pub move_items :
      (insert : HashTable V → Str → V → Run (HashTable V))
      → List (Slot V)
      → HashTable V
      → Run (HashTable V)
  move_items insert [] new_ht = ok new_ht
  move_items insert (empty ∷ items) new_ht = move_items insert items new_ht
  move_items insert (deleted ∷ items) new_ht = move_items insert items new_ht
  move_items insert (item k v ∷ items) new_ht = insert new_ht k v >>= move_items insert items

  -- The table keeps its own `used`.
  unfoldable pub resize_by :
      (insert : HashTable V → Str → V → Run (HashTable V)) → HashTable V → ℕ → Run (HashTable V)
  unfolding move_items
  resize_by insert ht new_size = if ltb new_size ht_base_size then ok ht else do
    new_ht ← htable_init new_size
    moved ← move_items insert ht.items new_ht
    ok (record ht { size = moved.size; items = moved.items })

  unfoldable pub resize_up_by :
      (insert : HashTable V → Str → V → Run (HashTable V)) → HashTable V → Run (HashTable V)
  unfolding load resize_by
  resize_up_by insert ht = do
    percent ← load ht
    if ltb 70 percent then int (ht.size * 2) >>= resize_by insert ht else ok ht

  -- `htable_insert` with a bound on how deep it and `htable_resize` call one another.
  unfoldable pub insert_at_depth : ℕ → HashTable V → Str → V → Run (HashTable V)
  unfolding free_loop resize_up_by
  insert_at_depth zero ht key value = fault Fault.out_of_fuel
  insert_at_depth (suc depth) ht key value = do
    free ← free_loop ht.size 0 ht key
    elim free [
      | none ↦ ok ht
      | some hash ↦ do
        used ← int (ht.used + 1)
        resize_up_by (insert_at_depth depth)
            (record ht { used = used; items = set ht.items hash (item key value) })
    ]

  -- The insertions of a resize do not resize again.
  unfoldable pub htable_insert : HashTable V → Str → V → Run (HashTable V)
  unfolding insert_at_depth
  htable_insert = insert_at_depth 2

  unfoldable pub resize_down_by :
      (insert : HashTable V → Str → V → Run (HashTable V)) → HashTable V → Run (HashTable V)
  unfolding load resize_by
  resize_down_by insert ht = do
    percent ← load ht
    if ltb percent 10 then resize_by insert ht (ht.size / 2) else ok ht

  pub htable_resize_down : HashTable V → Run (HashTable V)
  unfolding htable_insert resize_down_by
  htable_resize_down ht = resize_down_by htable_insert ht

  unfoldable pub htable_exists : HashTable V → Str → Run Bool
  htable_exists ht key = do
    found ← htable_search ht key
    elim found [ none ↦ ok false | some _ ↦ ok true ]

  -- A slot that the loop has found holds an entry, so `used` is not 0.
  unfoldable pub htable_del : HashTable V → Str → Run (HashTable V × Bool)
  unfolding locate_loop htable_resize_down
  htable_del ht key = do
    found ← locate_loop ht.size 0 ht key
    elim found [
      | none ↦ ok (ht, false)
      | some (hash, _) ↦ do
        ht' ←
            htable_resize_down (record ht { used = ht.used - 1; items = set ht.items hash deleted })
        ok (ht', true)
    ]

  -- What the code writes through the pointer to an item's value.
  unfoldable pub write_value : HashTable V → Str → ℕ → V → HashTable V
  write_value ht key hash value = record ht { items = set ht.items hash (item key value) }

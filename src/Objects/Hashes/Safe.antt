-- ===== src/Objects/Hashes/Safe.antt =====
-- The operations on hashes keep the table sound, and write inside the arrays that they return.
use hyperkv.Base.{
  ℕ, ◌+◌, ◌*◌, ◌≤◌, Bool, List, [], ◌∷◌, ◌++◌, ◌≡◌, refl, arith, some, ok, Str, length, ltb, ◌==◌,
  if◌then◌else◌, length-append, Safe, Safe-bind, Safe-option, Safe-if,
}
use hyperkv.HTable.{write_value, ht_base_size}
use hyperkv.HTable.Safe.{htable_init-Safe, htable_insert-Safe, htable_del-Safe}
use hyperkv.HTable.Sound.{search-Safe, exists-Safe, locate_loop-Safe, write_value-IsSound}
use hyperkv.Objects.Hashes.{
  htable_update_hash, htable_hset, htable_hget, htable_hlen, htable_hdel, collect_loop,
  htable_hgetall, htable_hkeyvals,
}
use hyperkv.Objects.Safe.{as_hash-Safe}
use hyperkv.Slots.{Slot, empty, deleted, item, live}
use hyperkv.Strings.Safe.{htable_set-Safe, htable_get-Safe, as_string-Safe}
use hyperkv.Value.{Value, hash_t, Store}
use hyperkv.Value.Safe.{IsText, IsWhole, IsSafeStore}

-- The array has room for the entries of as many items as `used` counts.
collect_loop-Safe :
    (width : ℕ) (entries : Str → Str → List Str) (used : ℕ)
    → ((k value : Str) → length (entries k value) ≡ width)
    → (items : List (Slot (Value ⊥))) (res : List Str)
    → length res + width * live items ≤ width * used
    → Safe (λ _. Unit) (collect_loop width entries used items res)
unfolding collect_loop live
collect_loop-Safe width entries used wide [] res room = Safe.returns _ tt
collect_loop-Safe width entries used wide (s ∷ items) res room =
    go (λ res room. collect_loop-Safe width entries used wide items res room) s room
  where
    next-Safe :
        ((res : List Str)
          → length res + width * live items ≤ width * used
          → Safe (λ _. Unit) (collect_loop width entries used items res))
        → (res : List Str) → length res + width * live items ≤ width * used
        → Safe
            (λ _. Unit)
            (let rest = collect_loop width entries used items res in
              if length res == width * used then ok (some res) else rest)
    next-Safe later res room =
        Safe-if _ _ (length res == width * used) (λ _. Safe.returns _ tt) (λ _. later res room)

    go :
        ((res : List Str)
          → length res + width * live items ≤ width * used
          → Safe (λ _. Unit) (collect_loop width entries used items res))
        → (s : Slot (Value ⊥)) → length res + width * live (s ∷ items) ≤ width * used
        → Safe (λ _. Unit) (collect_loop width entries used (s ∷ items) res)
    go later empty room = next-Safe later res room
    go later deleted room = next-Safe later res room
    go later (item k v) room = Safe-bind _ (as_string-Safe v) λ value _.
        Safe-if _ _ (ltb (width * used + 1) (length res + width)) (λ e. absurd (ground arith))
          (λ _.
            next-Safe later (res ++ entries k value)
              (omega (arith, room, length-append res (entries k value), wide k value)))

module _ (ht : Store) (sound : IsSafeStore ht) (key : Str) where
  htable_update_hash-Safe :
      (field value : Str) → Safe (λ r. IsSafeStore r.0) (htable_update_hash ht key field value)
  unfolding htable_update_hash
  htable_update_hash-Safe field value = Safe-bind _ (locate_loop-Safe sound key ht.size 0) (
      Safe-option _ _ _ (λ _. Safe.returns _ sound)
        λ x found. Safe-bind _ (as_hash-Safe x.1 found.2) λ tmp whole.
          Safe-bind _ (htable_set-Safe IsText (λ s. tt) tmp whole field value) λ r whole'.
            Safe.returns _ (write_value-IsSound sound key x.0 x.1 (hash_t r.0) found whole'))

  pub htable_hset-Safe :
      (field value : Str) → Safe (λ r. IsSafeStore r.0) (htable_hset ht key field value)
  unfolding htable_hset
  htable_hset-Safe field value = Safe-bind _ (exists-Safe sound key) λ exists _.
      Safe-if _ _ exists (λ _. htable_update_hash-Safe field value)
        λ _.
          (Safe-bind _ (htable_init-Safe IsText ht_base_size) λ new_ht fresh.
            Safe-bind _ (htable_set-Safe IsText (λ s. tt) new_ht fresh.0 field value)
              λ filled whole.
                Safe-bind _ (htable_insert-Safe IsWhole ht sound key (hash_t filled.0) whole)
                  λ ht' sound'. Safe.returns _ sound')

  pub htable_hget-Safe : (field : Str) → Safe (λ _. Unit) (htable_hget ht key field)
  unfolding htable_hget
  htable_hget-Safe field = Safe-bind _ (search-Safe sound key) (
      Safe-option _ _ _ (λ _. Safe.returns _ tt)
        λ x found.
          Safe-bind _ (as_hash-Safe x.1 found.2) λ tmp_ht whole. htable_get-Safe whole field)

  pub htable_hlen-Safe : Safe (λ _. Unit) (htable_hlen ht key)
  unfolding htable_hlen
  htable_hlen-Safe = Safe-bind _ (search-Safe sound key) (
      Safe-option _ _ _ (λ _. Safe.returns _ tt)
        λ x found. Safe-bind _ (as_hash-Safe x.1 found.2) λ tmp_ht whole. Safe.returns _ tt)

  pub htable_hdel-Safe : (field : Str) → Safe (λ r. IsSafeStore r.0) (htable_hdel ht key field)
  unfolding htable_hdel
  htable_hdel-Safe field = Safe-bind _ (search-Safe sound key) (
      Safe-option _ _ _ (λ _. Safe.returns _ sound)
        λ x found. Safe-bind _ (as_hash-Safe x.1 found.2) λ tmp_ht whole.
          Safe-bind _ (htable_del-Safe IsText tmp_ht whole field) λ r whole'.
            let ht' = write_value ht key x.0 (hash_t r.0) in
            let sound' : IsSafeStore ht' =
              write_value-IsSound sound key x.0 x.1 (hash_t r.0) found whole' in
            Safe-if _ _ (r.0.used == 0)
              (λ _.
                Safe-bind _ (htable_del-Safe IsWhole ht' sound' key)
                  λ _ sound''. Safe.returns _ sound'')
              (λ _. Safe.returns _ sound'))

  pub htable_hgetall-Safe : Safe (λ _. Unit) (htable_hgetall ht key)
  unfolding htable_hgetall
  htable_hgetall-Safe = Safe-bind _ (search-Safe sound key) (
      Safe-option _ _ _ (λ _. Safe.returns _ tt)
        λ x found. Safe-bind _ (as_hash-Safe x.1 found.2) λ tmp_ht whole.
          collect_loop-Safe 2 _ tmp_ht.used (λ k value. refl) tmp_ht.items []
            (omega (arith, whole.counted)))

  pub htable_hkeyvals-Safe : (ky : Bool) → Safe (λ _. Unit) (htable_hkeyvals ht key ky)
  unfolding htable_hkeyvals
  htable_hkeyvals-Safe ky = Safe-bind _ (search-Safe sound key) (
      Safe-option _ _ _ (λ _. Safe.returns _ tt)
        λ x found. Safe-bind _ (as_hash-Safe x.1 found.2) λ tmp_ht whole.
          collect_loop-Safe 1 _ tmp_ht.used (λ k value. refl) tmp_ht.items []
            (omega (arith, whole.counted)))

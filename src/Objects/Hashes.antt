-- ===== src/Objects/Hashes.antt =====
-- The operations on hashes of src/htable.c.
pub mod Safe
pub mod Laws
use hyperkv.Base.{
  ℕ, ◌+◌, ◌*◌, Bool, true, false, List, [], ◌∷◌, ◌++◌, Option, none, some, Run, ok, fault, Fault,
  ◌>>=◌, Str, length, ltb, ◌==◌, if◌then◌else◌,
}
use hyperkv.HTable.{
  htable_init, htable_search, htable_exists, htable_insert, htable_del, locate_loop, write_value,
  ht_base_size,
}
use hyperkv.Objects.{as_hash}
use hyperkv.Slots.{Slot, empty, deleted, item}
use hyperkv.Strings.{htable_set, htable_get, as_string}
use hyperkv.Value.{Value, hash_t, Store}

htable_update_hash : Store → Str → Str → Str → Run (Store × Bool)
htable_update_hash ht key field value = do
  found ← locate_loop ht.size 0 ht key
  elim found [
    | none ↦ ok (ht, false)
    | some (hash, v) ↦ do
      tmp ← as_hash v
      (tmp', res) ← htable_set tmp field value
      ok (write_value ht key hash (hash_t tmp'), res)
  ]

unfoldable pub htable_hset : Store → Str → Str → Str → Run (Store × Bool)
unfolding htable_update_hash locate_loop write_value
htable_hset ht key field value = do
  exists ← htable_exists ht key
  if exists then htable_update_hash ht key field value else do
    new_ht ← htable_init ht_base_size
    (filled, _) ← htable_set new_ht field value
    ht' ← htable_insert ht key (hash_t filled)
    ok (ht', true)

unfoldable pub htable_hget : Store → Str → Str → Run (Option Str)
htable_hget ht key field = do
  tmp ← htable_search ht key
  elim tmp [ none ↦ ok none | some (_, v) ↦ as_hash v >>= λ tmp_ht. htable_get tmp_ht field ]

unfoldable pub htable_hlen : Store → Str → Run ℕ
htable_hlen ht key = do
  tmp ← htable_search ht key
  elim tmp [ none ↦ ok 0 | some (_, v) ↦ as_hash v >>= λ tmp_ht. ok tmp_ht.used ]

unfoldable pub htable_hdel : Store → Str → Str → Run (Store × Bool)
unfolding write_value
htable_hdel ht key field = do
  tmp ← htable_search ht key
  elim tmp [
    | none ↦ ok (ht, false)
    | some (hash, v) ↦ do
      tmp_ht ← as_hash v
      (tmp_ht', res) ← htable_del tmp_ht field
      let ht' = write_value ht key hash (hash_t tmp_ht')
      if tmp_ht'.used == 0 then htable_del ht' key >>= (λ r. ok (r.0, res)) else ok (ht', res)
  ]

-- The loop over the slots, with the array written so far. `width` entries are written for an item,
-- and the array has room for `width * used` of them and the NULL.
collect_loop :
    ℕ → (Str → Str → List Str) → ℕ → List (Slot (Value ⊥)) → List Str → Run (Option (List Str))
collect_loop width entries used [] res = ok none
collect_loop width entries used (s ∷ items) res =
    let next = λ (res : List Str).
      (let rest = collect_loop width entries used items res in
        if length res == width * used then ok (some res) else rest) in
    elim s [
      | empty ↦ next res
      | deleted ↦ next res
      | item k v ↦ do
        value ← as_string v
        if ltb (width * used + 1) (length res + width)
            then fault Fault.out_of_bounds
            else next (res ++ entries k value)
    ]

unfoldable pub htable_hgetall : Store → Str → Run (Option (List Str))
unfolding collect_loop
htable_hgetall ht key = do
  tmp ← htable_search ht key
  elim tmp [
    | none ↦ ok none
    | some (_, v) ↦ do
      tmp_ht ← as_hash v
      collect_loop 2 (λ k value. k ∷ value ∷ []) tmp_ht.used tmp_ht.items []
  ]

unfoldable pub htable_hkeyvals : Store → Str → (ky : Bool) → Run (Option (List Str))
unfolding collect_loop
htable_hkeyvals ht key ky = do
  tmp ← htable_search ht key
  elim tmp [
    | none ↦ ok none
    | some (_, v) ↦ do
      tmp_ht ← as_hash v
      collect_loop 1 (λ k value. (if ky then k else value) ∷ []) tmp_ht.used tmp_ht.items []
  ]

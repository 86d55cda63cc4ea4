-- ===== src/Objects/Sets.antt =====
-- The operations on sets of src/htable.c.
pub mod Safe
pub mod Laws
use hyperkv.Base.{
  Bool, true, false, List, Option, none, some, Run, ok, ◌>>=◌, Str, ◌==◌, if◌then◌else◌,
}
use hyperkv.HTable.{
  htable_search, htable_exists, htable_insert, htable_del, locate_loop, write_value, ht_base_size,
}
use hyperkv.Objects.{as_set}
use hyperkv.Set.{set_init, set_add, set_rem, set_ismember, set_members}
use hyperkv.Value.{set_t, Store}

htable_update_set : Store → Str → Str → Run (Store × Bool)
htable_update_set ht key value = do
  found ← locate_loop ht.size 0 ht key
  elim found [
    | none ↦ ok (ht, false)
    | some (hash, v) ↦ do
      tmp ← as_set v
      (tmp', res) ← set_add tmp value
      ok (write_value ht key hash (set_t tmp'), res)
  ]

unfoldable pub htable_sadd : Store → Str → Str → Run (Store × Bool)
unfolding htable_update_set locate_loop write_value
htable_sadd ht key value = do
  exists ← htable_exists ht key
  if exists then htable_update_set ht key value else do
    new_st ← set_init ht_base_size
    (filled, _) ← set_add new_st value
    ht' ← htable_insert ht key (set_t filled)
    ok (ht', true)

unfoldable pub htable_sismember : Store → Str → Str → Run Bool
htable_sismember ht key value = do
  tmp ← htable_search ht key
  elim tmp [ none ↦ ok false | some (_, v) ↦ as_set v >>= λ tmp_st. set_ismember tmp_st value ]

unfoldable pub htable_srem : Store → Str → Str → Run (Store × Bool)
unfolding write_value
htable_srem ht key value = do
  tmp ← htable_search ht key
  elim tmp [
    | none ↦ ok (ht, false)
    | some (hash, v) ↦ do
      tmp_st ← as_set v
      (tmp_st', res) ← set_rem tmp_st value
      let ht' = write_value ht key hash (set_t tmp_st')
      if tmp_st'.used == 0 then htable_del ht' key >>= (λ r. ok (r.0, res)) else ok (ht', res)
  ]

unfoldable pub htable_smembers : Store → Str → Run (Option (List Str))
htable_smembers ht key = do
  tmp ← htable_search ht key
  elim tmp [ none ↦ ok none | some (_, v) ↦ as_set v >>= λ tmp_st. ok (some (set_members tmp_st)) ]

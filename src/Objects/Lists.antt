-- ===== src/Objects/Lists.antt =====
-- The operations on lists of src/htable.c.
pub mod Safe
pub mod Laws
use hyperkv.Base.{
  ℕ, Bool, false, ◌&&◌, List, ℤ, pos, negsuc, ◌+ℤ◌, ltb_ℤ, leb_ℤ, pos_part, Option, none, some, Run,
  ok, fault, Fault, ◌>>=◌, Str, ◌==◌, if◌then◌else◌, codes, str_eq, ◌||◌,
}
use hyperkv.HTable.{
  htable_search, htable_exists, htable_insert, htable_del, locate_loop, write_value,
}
use hyperkv.List.{
  LinkedList, load, list_init, list_lpush, list_rpush, list_lpop, list_rpop, list_index, list_set,
  list_pos,
}
use hyperkv.List.Rem.{list_rem, list_range}
use hyperkv.Objects.{as_list, htable_type}
use hyperkv.Value.{list_t, Store}

pub data ListDirection : Type 0 where
  left right : ListDirection

abbrev push_at : ListDirection → LinkedList → Str → Run LinkedList
push_at ListDirection.left ls value = list_lpush ls value
push_at ListDirection.right ls value = list_rpush ls value

abbrev pub pop_at : ListDirection → LinkedList → Run (LinkedList × Option ℕ)
pop_at ListDirection.left ls = list_lpop ls
pop_at ListDirection.right ls = list_rpop ls

htable_update_list : Store → Str → Str → ListDirection → Run (Store × ℕ)
htable_update_list ht key value dir = do
  found ← locate_loop ht.size 0 ht key
  elim found [
    | none ↦ ok (ht, 0)
    | some (hash, v) ↦ do
      tmp ← as_list v
      tmp' ← push_at dir tmp value
      ok (write_value ht key hash (list_t tmp'), tmp'.len)
  ]

unfoldable pub htable_push : Store → Str → Str → ListDirection → Run (Store × ℕ)
unfolding htable_update_list locate_loop write_value
htable_push ht key value dir = do
  exists ← htable_exists ht key
  if exists then htable_update_list ht key value dir else do
    new_ls ← push_at dir list_init value
    ht' ← htable_insert ht key (list_t new_ls)
    ok (ht', 1)

-- `tmp_nd->value` is read with no test for NULL.
unfoldable pub htable_pop : Store → Str → ListDirection → Run (Store × Option Str)
unfolding load write_value
htable_pop ht key dir = do
  tmp ← htable_search ht key
  elim tmp [
    | none ↦ ok (ht, none)
    | some (hash, v) ↦ do
      tmp_ls ← as_list v
      (tmp_ls', tmp_nd) ← pop_at dir tmp_ls
      (_, n) ← load tmp_ls' tmp_nd
      let ht' = write_value ht key hash (list_t tmp_ls')
      if tmp_ls'.len == 0
          then htable_del ht' key >>= (λ r. ok (r.0, some n.value))
          else ok (ht', some n.value)
  ]

unfoldable pub htable_llen : Store → Str → Run ℕ
htable_llen ht key = do
  tmp ← htable_search ht key
  elim tmp [ none ↦ ok 0 | some (_, v) ↦ as_list v >>= λ tmp_ls. ok tmp_ls.len ]

-- A negative index counts from the end.
pub from_end : ℕ → ℤ → ℤ
from_end len id = if ltb_ℤ id (pos 0) then pos len +ℤ id else id

pub inside : ℕ → ℤ → Bool
inside len id = leb_ℤ (pos 0) id && ltb_ℤ id (pos len)

-- The code (-1, 0 or 1) with what is written through the pointer.
unfoldable pub htable_check_id : Store → Str → ℤ → Run (ℤ × ℤ)
unfolding from_end inside
htable_check_id ht key id = do
  tmp ← htable_search ht key
  elim tmp [
    | none ↦ ok (negsuc 0, id)
    | some (_, v) ↦ do
      tmp_ls ← as_list v
      let id' = from_end tmp_ls.len id
      ok (if inside tmp_ls.len id' then pos 1 else pos 0, id')
  ]

unfoldable pub htable_check_ids : Store → Str → ℤ → ℤ → Run (ℤ × ℤ × ℤ)
unfolding from_end inside
htable_check_ids ht key begin end = do
  tmp ← htable_search ht key
  elim tmp [
    | none ↦ ok (negsuc 0, begin, end)
    | some (_, v) ↦ do
      tmp_ls ← as_list v
      let begin' = from_end tmp_ls.len begin
      let end' = from_end tmp_ls.len end
      let fits = leb_ℤ begin' end' && (inside tmp_ls.len begin' && inside tmp_ls.len end')
      ok (if fits then pos 1 else pos 0, begin', end')
  ]

unfoldable pub htable_lindex : Store → Str → ℤ → Run (Option Str)
unfolding load
htable_lindex ht key id = do
  tmp ← htable_search ht key
  elim tmp [
    | none ↦ ok none
    | some (_, v) ↦ do
      tmp_ls ← as_list v
      tmp_nd ← list_index tmp_ls id
      elim tmp_nd [ none ↦ ok none | some p ↦ load tmp_ls (some p) >>= λ r. ok (some r.1.value) ]
  ]

unfoldable pub htable_lset : Store → Str → ℤ → Str → Run (Store × Bool)
unfolding write_value
htable_lset ht key id value = do
  tmp ← htable_search ht key
  elim tmp [
    | none ↦ ok (ht, false)
    | some (hash, v) ↦ do
      tmp_ls ← as_list v
      (tmp_ls', res) ← list_set tmp_ls id value
      ok (write_value ht key hash (list_t tmp_ls'), res)
  ]

unfoldable pub htable_lrem : Store → Str → ℤ → Str → Run (Store × ℕ)
unfolding write_value
htable_lrem ht key count value = do
  tmp ← htable_search ht key
  elim tmp [
    | none ↦ ok (ht, 0)
    | some (hash, v) ↦ do
      tmp_ls ← as_list v
      (tmp_ls', res) ← list_rem tmp_ls count value
      let ht' = write_value ht key hash (list_t tmp_ls')
      if tmp_ls'.len == 0 then htable_del ht' key >>= (λ r. ok (r.0, res)) else ok (ht', res)
  ]

unfoldable pub htable_lpos : Store → Str → Str → Run ℤ
htable_lpos ht key value = do
  tmp ← htable_search ht key
  elim tmp [ none ↦ ok (negsuc 0) | some (_, v) ↦ as_list v >>= λ tmp_ls. list_pos tmp_ls value ]

-- The item is read with no test for NULL; `begin` and `end` have been checked.
unfoldable pub htable_lrange : Store → Str → ℤ → ℤ → Run (Option (List Str))
htable_lrange ht key begin end = do
  type ← htable_type ht key
  if str_eq type (codes "list") || str_eq type (codes "none")
      then (do
        tmp ← htable_search ht key
        elim tmp [
          | none ↦ fault Fault.null_pointer
          | some (_, v) ↦ do
            tmp_ls ← as_list v
            res ← list_range tmp_ls (pos_part begin) (pos_part end)
            ok (some res)
        ])
      else ok none

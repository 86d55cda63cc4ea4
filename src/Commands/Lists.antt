-- ===== src/Commands/Lists.antt =====
-- The list commands of src/interpreter.c.
pub mod Safe
use hyperkv.Base.{
  ℕ, ◌&&◌, List, [], ◌∷◌, pos, ltb_ℤ, is_zero, none, some, Run, ok, ◌>>=◌, Str, codes,
  if◌then◌else◌,
}
use hyperkv.Commands.{Result, with_type, wrong_argc}
use hyperkv.Helper.Number.{is_number, strtoi}
use hyperkv.Objects.Lists.{
  ListDirection, htable_push, htable_pop, htable_llen, htable_check_id, htable_check_ids,
  htable_lindex, htable_lset, htable_lrem, htable_lpos, htable_lrange,
}
use hyperkv.Reply.{reply_integer, reply_string, reply_array, reply_err_intid}
use hyperkv.Value.{Store}

push_loop : Store → Str → List Str → ListDirection → ℕ → Run (Store × ℕ)
push_loop ht key [] dir len = ok (ht, len)
push_loop ht key (value ∷ argv) dir len = do
  (ht', len') ← htable_push ht key value dir
  push_loop ht' key argv dir len'

unfoldable pub exec_push : Store → List Str → ListDirection → Result
unfolding push_loop
exec_push ht (key ∷ value ∷ argv) dir =
    with_type ht key "list"
      (do (ht', len) ← push_loop ht key (value ∷ argv) dir 0; ok (ht', reply_integer (pos len)))
exec_push ht argv dir = wrong_argc ht argv "2+"

unfoldable pub exec_pop : Store → List Str → ListDirection → Result
exec_pop ht (key ∷ []) dir =
    with_type ht key "list" (do (ht', res) ← htable_pop ht key dir; ok (ht', reply_string res))
exec_pop ht argv dir = wrong_argc ht argv "1"

unfoldable pub exec_llen : Store → List Str → Result
exec_llen ht (key ∷ []) =
    with_type ht key "list" (htable_llen ht key >>= λ n. ok (ht, reply_integer (pos n)))
exec_llen ht argv = wrong_argc ht argv "1"

unfoldable pub exec_lindex : Store → List Str → Result
exec_lindex ht (key ∷ index ∷ []) = with_type ht key "list" (
    if is_number index
    then (do
      given ← strtoi index
      (code, id) ← htable_check_id ht key given
      if is_zero code then ok (ht, reply_err_intid) else do
        res ← if ltb_ℤ (pos 0) code then htable_lindex ht key id else ok none
        ok (ht, reply_string res))
    else ok (ht, reply_err_intid))
exec_lindex ht argv = wrong_argc ht argv "2"

unfoldable pub exec_lrange : Store → List Str → Result
exec_lrange ht (key ∷ first ∷ last ∷ []) = with_type ht key "list" (
    if is_number first && is_number last
    then (do
      given ← strtoi first
      given' ← strtoi last
      (code, bgn, end) ← htable_check_ids ht key given given'
      if is_zero code then ok (ht, reply_err_intid) else do
        res ← if ltb_ℤ (pos 0) code then htable_lrange ht key bgn end else ok none
        reply ← reply_array res
        ok (ht, reply))
    else ok (ht, reply_err_intid))
exec_lrange ht argv = wrong_argc ht argv "3"

unfoldable pub exec_lset : Store → List Str → Result
exec_lset ht (key ∷ index ∷ value ∷ []) = with_type ht key "list" (
    if is_number index
    then (do
      given ← strtoi index
      (code, id) ← htable_check_id ht key given
      if is_zero code then ok (ht, reply_err_intid) else do
        (ht', _) ← htable_lset ht key id value
        ok (ht', reply_string (if ltb_ℤ (pos 0) code then some (codes "OK") else none)))
    else ok (ht, reply_err_intid))
exec_lset ht argv = wrong_argc ht argv "3"

unfoldable pub exec_lrem : Store → List Str → Result
exec_lrem ht (key ∷ number ∷ value ∷ []) = with_type ht key "list" (
    if is_number number
    then (do
      count ← strtoi number
      (ht', res) ← htable_lrem ht key count value
      ok (ht', reply_integer (pos res)))
    else ok (ht, reply_err_intid))
exec_lrem ht argv = wrong_argc ht argv "3"

unfoldable pub exec_lpos : Store → List Str → Result
exec_lpos ht (key ∷ value ∷ []) = with_type ht key "list" (do
  res ← htable_lpos ht key value
  ok (ht, if ltb_ℤ res (pos 0) then reply_string none else reply_integer res))
exec_lpos ht argv = wrong_argc ht argv "2"

-- ===== src/Commands/Hashes.antt =====
-- The hash commands of src/interpreter.c.
pub mod Safe
use hyperkv.Base.{
  ℕ, ◌+◌, ◌%◌, ◌==◌, ◌&&◌, leb, Bool, true, false, List, [], ◌∷◌, pos, Option, none, Run, ok, fault,
  Fault, ◌>>=◌, Str, length, if◌then◌else◌, is_some,
}
use hyperkv.Commands.{Result, with_type, wrong_argc}
use hyperkv.Commands.Keys.{to_int}
use hyperkv.HTable.{htable_exists}
use hyperkv.Objects.Hashes.{
  htable_hset, htable_hget, htable_hdel, htable_hgetall, htable_hkeyvals, htable_hlen,
}
use hyperkv.Reply.{reply_integer, reply_string, reply_array, reply_array_n}
use hyperkv.Value.{Store}

hset_loop : Store → Str → List Str → ℕ → Run (Store × ℕ)
hset_loop ht key [] oks = ok (ht, oks)
hset_loop ht key (field ∷ []) oks = fault Fault.out_of_bounds
hset_loop ht key (field ∷ value ∷ argv) oks = do
  (ht', res) ← htable_hset ht key field value
  hset_loop ht' key argv (oks + to_int res)

unfoldable pub exec_hset : Store → List Str → Result
unfolding hset_loop
exec_hset ht [] = wrong_argc ht [] "3+"
exec_hset ht (key ∷ argv) =
    if leb 2 (length argv) && length argv % 2 == 0
    then with_type ht key "hash"
        (do (ht', oks) ← hset_loop ht key argv 0; ok (ht', reply_integer (pos oks)))
    else wrong_argc ht (key ∷ argv) "3+"

unfoldable pub exec_hget : Store → List Str → Result
exec_hget ht (key ∷ field ∷ []) =
    with_type ht key "hash" (htable_hget ht key field >>= λ res. ok (ht, reply_string res))
exec_hget ht argv = wrong_argc ht argv "2"

hdel_loop : Store → Str → List Str → ℕ → Run (Store × ℕ)
hdel_loop ht key [] oks = ok (ht, oks)
hdel_loop ht key (field ∷ argv) oks = do
  (ht', res) ← htable_hdel ht key field
  hdel_loop ht' key argv (oks + to_int res)

unfoldable pub exec_hdel : Store → List Str → Result
unfolding hdel_loop
exec_hdel ht (key ∷ field ∷ argv) =
    with_type ht key "hash"
      (do (ht', oks) ← hdel_loop ht key (field ∷ argv) 0; ok (ht', reply_integer (pos oks)))
exec_hdel ht argv = wrong_argc ht argv "2+"

unfoldable pub exec_hgetall : Store → List Str → Result
exec_hgetall ht (key ∷ []) =
    with_type ht key "hash"
      (do res ← htable_hgetall ht key; reply ← reply_array res; ok (ht, reply))
exec_hgetall ht argv = wrong_argc ht argv "1"

unfoldable pub exec_hexists : Store → List Str → Result
exec_hexists ht (key ∷ field ∷ []) =
    with_type ht key "hash"
      (do res ← htable_hget ht key field; ok (ht, reply_integer (pos (to_int (is_some res)))))
exec_hexists ht argv = wrong_argc ht argv "2"

unfoldable pub exec_hkeyvals : Store → List Str → (key : Bool) → Result
exec_hkeyvals ht (key ∷ []) ky =
    with_type ht key "hash"
      (do res ← htable_hkeyvals ht key ky; reply ← reply_array res; ok (ht, reply))
exec_hkeyvals ht argv ky = wrong_argc ht argv "1"

unfoldable pub exec_hkeys : Store → List Str → Result
exec_hkeys ht argv = exec_hkeyvals ht argv true

unfoldable pub exec_hvals : Store → List Str → Result
exec_hvals ht argv = exec_hkeyvals ht argv false

hget_all : Store → Str → List Str → Run (List (Option Str))
hget_all ht key [] = ok []
hget_all ht key (field ∷ argv) = do
  tmp ← htable_hget ht key field
  rest ← hget_all ht key argv
  ok (tmp ∷ rest)

unfoldable pub exec_hmget : Store → List Str → Result
unfolding hget_all
exec_hmget ht (key ∷ field ∷ argv) = with_type ht key "hash" (do
  exists ← htable_exists ht key
  if exists
      then (do res ← hget_all ht key (field ∷ argv); reply ← reply_array_n res; ok (ht, reply))
      else reply_array none >>= (λ reply. ok (ht, reply)))
exec_hmget ht argv = wrong_argc ht argv "2+"

unfoldable pub exec_hlen : Store → List Str → Result
exec_hlen ht (key ∷ []) =
    with_type ht key "hash" (htable_hlen ht key >>= λ n. ok (ht, reply_integer (pos n)))
exec_hlen ht argv = wrong_argc ht argv "1"

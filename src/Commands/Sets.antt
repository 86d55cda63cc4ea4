-- ===== src/Commands/Sets.antt =====
-- The set commands of src/interpreter.c.
pub mod Safe
use hyperkv.Base.{
  ℕ, ◌+◌, Bool, List, [], ◌∷◌, pos, Option, none, some, Run, ok, ◌>>=◌, Str, if◌then◌else◌,
}
use hyperkv.Commands.{Result, with_type, wrong_argc}
use hyperkv.Commands.Keys.{to_int}
use hyperkv.HTable.{htable_exists}
use hyperkv.Helper.Number.{intostr}
use hyperkv.Objects.Sets.{htable_sadd, htable_srem, htable_sismember, htable_smembers}
use hyperkv.Reply.{reply_integer, reply_array, reply_array_n}
use hyperkv.Value.{Store}

-- The loop of `exec_sadd` and `exec_srem` over the members.
count_loop : (Store → Str → Str → Run (Store × Bool)) → Store → Str → List Str → ℕ → Run (Store × ℕ)
count_loop step ht key [] oks = ok (ht, oks)
count_loop step ht key (value ∷ argv) oks = do
  (ht', res) ← step ht key value
  count_loop step ht' key argv (oks + to_int res)

unfoldable pub exec_sadd : Store → List Str → Result
unfolding count_loop
exec_sadd ht (key ∷ value ∷ argv) = with_type ht key "set" (do
  (ht', oks) ← count_loop htable_sadd ht key (value ∷ argv) 0
  ok (ht', reply_integer (pos oks)))
exec_sadd ht argv = wrong_argc ht argv "2+"

unfoldable pub exec_srem : Store → List Str → Result
unfolding count_loop
exec_srem ht (key ∷ value ∷ argv) = with_type ht key "set" (do
  (ht', oks) ← count_loop htable_srem ht key (value ∷ argv) 0
  ok (ht', reply_integer (pos oks)))
exec_srem ht argv = wrong_argc ht argv "2+"

unfoldable pub exec_sismember : Store → List Str → Result
exec_sismember ht (key ∷ value ∷ []) =
    with_type ht key "set"
      (do x ← htable_sismember ht key value; ok (ht, reply_integer (pos (to_int x))))
exec_sismember ht argv = wrong_argc ht argv "2"

unfoldable pub exec_smembers : Store → List Str → Result
exec_smembers ht (key ∷ []) =
    with_type ht key "set"
      (do res ← htable_smembers ht key; reply ← reply_array res; ok (ht, reply))
exec_smembers ht argv = wrong_argc ht argv "1"

sismember_all : Store → Str → List Str → Run (List (Option Str))
sismember_all ht key [] = ok []
sismember_all ht key (value ∷ argv) = do
  x ← htable_sismember ht key value
  str ← intostr (pos (to_int x))
  rest ← sismember_all ht key argv
  ok (some str ∷ rest)

unfoldable pub exec_smismember : Store → List Str → Result
unfolding sismember_all
exec_smismember ht (key ∷ value ∷ argv) = with_type ht key "set" (do
  exists ← htable_exists ht key
  if exists
      then (do res ← sismember_all ht key (value ∷ argv); reply ← reply_array_n res; ok (ht, reply))
      else reply_array none >>= (λ reply. ok (ht, reply)))
exec_smismember ht argv = wrong_argc ht argv "2+"

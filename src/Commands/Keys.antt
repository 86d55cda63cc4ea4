-- ===== src/Commands/Keys.antt =====
-- `del`, `exists` and `type` of src/interpreter.c.
pub mod Safe
pub mod Laws
use hyperkv.Base.{ℕ, ◌+◌, Bool, true, false, List, [], ◌∷◌, pos, some, Run, ok, ◌>>=◌, Str}
use hyperkv.Commands.{Result, wrong_argc}
use hyperkv.HTable.{htable_del, htable_exists}
use hyperkv.Objects.{htable_type}
use hyperkv.Reply.{reply_integer, reply_string}
use hyperkv.Value.{Store}

abbrev pub to_int : Bool → ℕ
to_int true = 1
to_int false = 0

del_loop : Store → List Str → ℕ → Run (Store × ℕ)
del_loop ht [] oks = ok (ht, oks)
del_loop ht (key ∷ argv) oks = do
  (ht', res) ← htable_del ht key
  del_loop ht' argv (oks + to_int res)

unfoldable pub exec_del : Store → List Str → Result
unfolding del_loop
exec_del ht [] = wrong_argc ht [] "1+"
exec_del ht (key ∷ argv) = do
  (ht', oks) ← del_loop ht (key ∷ argv) 0
  ok (ht', reply_integer (pos oks))

exists_loop : Store → List Str → ℕ → Run ℕ
exists_loop ht [] oks = ok oks
exists_loop ht (key ∷ argv) oks = do
  res ← htable_exists ht key
  exists_loop ht argv (oks + to_int res)

unfoldable pub exec_exists : Store → List Str → Result
unfolding exists_loop
exec_exists ht [] = wrong_argc ht [] "1+"
exec_exists ht (key ∷ argv) = do
  oks ← exists_loop ht (key ∷ argv) 0
  ok (ht, reply_integer (pos oks))

unfoldable pub exec_type : Store → List Str → Result
exec_type ht (key ∷ []) = htable_type ht key >>= λ res. ok (ht, reply_string (some res))
exec_type ht argv = wrong_argc ht argv "1"

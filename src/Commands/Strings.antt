-- ===== src/Commands/Strings.antt =====
-- `set`, `get`, `mset`, `mget` and `strlen` of src/interpreter.c.
pub mod Safe
pub mod Laws
use hyperkv.Base.{
  List, [], ◌∷◌, pos, Option, none, some, Run, ok, fault, Fault, ◌>>=◌, Str, codes, length, ◌%◌,
  ◌==◌, ◌&&◌, leb, if◌then◌else◌,
}
use hyperkv.Commands.{Result, with_type, wrong_argc}
use hyperkv.Reply.{reply_integer, reply_string, reply_array_n}
use hyperkv.Strings.{htable_set, htable_get}
use hyperkv.Value.{Store}

-- What `htable_set` returns is not looked at.
unfoldable pub exec_set : Store → List Str → Result
exec_set ht [] = ok (ht, reply_string (some (codes "OK")))
exec_set ht (key ∷ []) = htable_set ht key [] >>= λ r. ok (r.0, reply_string (some (codes "OK")))
exec_set ht (key ∷ value ∷ []) =
    htable_set ht key value >>= λ r. ok (r.0, reply_string (some (codes "OK")))
exec_set ht argv = wrong_argc ht argv "0..2"

unfoldable pub exec_get : Store → List Str → Result
exec_get ht (key ∷ []) =
    with_type ht key "string" (htable_get ht key >>= λ res. ok (ht, reply_string res))
exec_get ht argv = wrong_argc ht argv "1"

mset_loop : Store → List Str → Run Store
mset_loop ht [] = ok ht
mset_loop ht (key ∷ []) = fault Fault.out_of_bounds
mset_loop ht (key ∷ value ∷ argv) = do (ht', _) ← htable_set ht key value; mset_loop ht' argv

unfoldable pub exec_mset : Store → List Str → Result
unfolding mset_loop
exec_mset ht argv =
    if leb 2 (length argv) && length argv % 2 == 0
    then mset_loop ht argv >>= (λ ht'. ok (ht', reply_string (some (codes "OK"))))
    else wrong_argc ht argv "2+"

get_all : Store → List Str → Run (List (Option Str))
get_all ht [] = ok []
get_all ht (key ∷ argv) = do tmp ← htable_get ht key; rest ← get_all ht argv; ok (tmp ∷ rest)

-- Only the type of the first key is tested.
unfoldable pub exec_mget : Store → List Str → Result
unfolding get_all
exec_mget ht [] = wrong_argc ht [] "1+"
exec_mget ht (key ∷ argv) =
    with_type ht key "string"
      (do res ← get_all ht (key ∷ argv); reply ← reply_array_n res; ok (ht, reply))

unfoldable pub exec_strlen : Store → List Str → Result
exec_strlen ht (key ∷ []) = with_type ht key "string" (do
  res ← htable_get ht key
  ok (ht, reply_integer (pos (elim res [ none ↦ 0 | some s ↦ length s ]))))
exec_strlen ht argv = wrong_argc ht argv "1"

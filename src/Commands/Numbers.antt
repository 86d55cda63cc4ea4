-- ===== src/Commands/Numbers.antt =====
-- `incr`, `decr`, `incrby` and `decrby` of src/interpreter.c.
pub mod Safe
pub mod Laws
use hyperkv.Base.{
  List, [], ◌∷◌, ℤ, pos, negsuc, ◌+ℤ◌, ◌-ℤ◌, int_ℤ, Option, none, some, ok, fault, Fault, ◌>>=◌,
  Run, Bool, not, ◌&&◌, is_some, Str, if◌then◌else◌,
}
use hyperkv.Commands.{Result, with_type, wrong_argc}
use hyperkv.Helper.Number.{is_number, strtoi, intostr}
use hyperkv.Reply.{reply_integer, reply_err_intid}
use hyperkv.Strings.{htable_set, htable_get}
use hyperkv.Value.{Store}

-- `htable_set(ht, key, intostr(tmp)); return reply_integer(tmp);`. The reply is printed after
-- `intostr` has counted the digits of the same number.
pub store_number : Store → Str → ℤ → Result
store_number ht key tmp = do
  str ← intostr tmp
  (ht', _) ← htable_set ht key str
  ok (ht', reply_integer tmp)

-- `is_number` and `strtoi` of a pointer, which they read through.
pub is_number_at : Option Str → Run Bool
is_number_at none = fault Fault.null_pointer
is_number_at (some s) = ok (is_number s)

pub strtoi_at : Option Str → Run ℤ
strtoi_at none = fault Fault.null_pointer
strtoi_at (some s) = strtoi s

unfoldable pub exec_incr : Store → List Str → Result
unfolding store_number
exec_incr ht (key ∷ []) = with_type ht key "string" (do
  res ← htable_get ht key
  elim res [
    | none ↦ store_number ht key (pos 1)
    | some s ↦
        if is_number s
        then strtoi s >>= (λ x. int_ℤ (x +ℤ pos 1) >>= store_number ht key)
        else ok (ht, reply_err_intid)
  ])
exec_incr ht argv = wrong_argc ht argv "1"

unfoldable pub exec_decr : Store → List Str → Result
unfolding store_number
exec_decr ht (key ∷ []) = with_type ht key "string" (do
  res ← htable_get ht key
  elim res [
    | none ↦ store_number ht key (negsuc 0)
    | some s ↦
        if is_number s
        then strtoi s >>= (λ x. int_ℤ (x -ℤ pos 1) >>= store_number ht key)
        else ok (ht, reply_err_intid)
  ])
exec_decr ht argv = wrong_argc ht argv "1"

-- `exec_incrby` from its tests of `res` on.
pub incrby_from : Store → Str → Str → Option Str → Result
incrby_from ht key amount res =
    if not (is_some res) && is_number amount
    then (do tmp ← strtoi amount; store_number ht key tmp)
    else (do
      number ← is_number_at res
      if number && is_number amount
          then (do
            x ← strtoi_at res
            y ← strtoi amount
            tmp ← int_ℤ (x +ℤ y)
            store_number ht key tmp)
          else ok (ht, reply_err_intid))

unfoldable pub exec_incrby : Store → List Str → Result
unfolding incrby_from store_number is_number_at strtoi_at
exec_incrby ht (key ∷ amount ∷ []) =
    with_type ht key "string" (do res ← htable_get ht key; incrby_from ht key amount res)
exec_incrby ht argv = wrong_argc ht argv "2"

-- `exec_decrby` from its tests of `res` on.
pub decrby_from : Store → Str → Str → Option Str → Result
decrby_from ht key amount res =
    if not (is_some res) && is_number amount
    then (do tmp ← strtoi amount; store_number ht key tmp)
    else (do
      number ← is_number_at res
      if number && is_number amount
          then (do
            x ← strtoi_at res
            y ← strtoi amount
            tmp ← int_ℤ (x -ℤ y)
            store_number ht key tmp)
          else ok (ht, reply_err_intid))

unfoldable pub exec_decrby : Store → List Str → Result
unfolding decrby_from store_number is_number_at strtoi_at
exec_decrby ht (key ∷ amount ∷ []) =
    with_type ht key "string" (do res ← htable_get ht key; decrby_from ht key amount res)
exec_decrby ht argv = wrong_argc ht argv "2"

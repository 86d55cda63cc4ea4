-- ===== src/Commands/Numbers/Safe.antt =====
-- `incr`, `decr`, `incrby` and `decrby` keep the table sound.
use hyperkv.Base.{
  List, [], ◌∷◌, ℤ, pos, negsuc, ◌+ℤ◌, ◌-ℤ◌, Fault, Option, none, some, ◌&&◌, Str, Safe, Safe-bind,
  Safe-option, Safe-if,
}
use hyperkv.Commands.Numbers.{
  store_number, exec_incr, exec_decr, incrby_from, decrby_from, is_number_at, strtoi_at,
  exec_incrby, exec_decrby,
}
use hyperkv.Commands.Safe.{SafeResult, with_type-Safe, wrong_argc-Safe}
use hyperkv.Commands.Strings.Safe.{set-Safe}
use hyperkv.Helper.Number.{is_number}
use hyperkv.Helper.Number.Digits.{intostr-Safe}
use hyperkv.Helper.Number.Safe.{strtoi-Safe, int_ℤ-Safe}
use hyperkv.Strings.Safe.{htable_get-Safe}
use hyperkv.Reply.Safe.{reply_integer-Plain, reply_err_intid-Plain}
use hyperkv.Value.{Store}
use hyperkv.Value.Safe.{IsSafeStore}

module _ (ht : Store) (sound : IsSafeStore ht) where
  store_number-Safe : (key : Str) (tmp : ℤ) → SafeResult (store_number ht key tmp)
  unfolding store_number
  store_number-Safe key tmp = Safe-bind _ (intostr-Safe tmp) λ str _.
      Safe-bind _ (set-Safe ht sound key str)
        λ r sound'. Safe.returns _ (sound', reply_integer-Plain _)

  pub exec_incr-Safe : (argv : List Str) → SafeResult (exec_incr ht argv)
  unfolding exec_incr
  exec_incr-Safe [] = wrong_argc-Safe ht sound [] "1"
  exec_incr-Safe (key ∷ []) = with_type-Safe ht sound key "string" _ (
      Safe-bind _ (htable_get-Safe sound key) (
        Safe-option (λ _. Unit) _ _ (λ _. store_number-Safe key (pos 1))
          λ s _.
            Safe-if _ _ (is_number s)
              (λ _.
                Safe-bind _ (strtoi-Safe s)
                  λ x _. Safe-bind _ (int_ℤ-Safe (x +ℤ pos 1)) λ y _. store_number-Safe key y)
              (λ _. Safe.returns _ (sound, reply_err_intid-Plain))))
  exec_incr-Safe (key ∷ next ∷ argv) = wrong_argc-Safe ht sound (key ∷ next ∷ argv) "1"

  pub exec_decr-Safe : (argv : List Str) → SafeResult (exec_decr ht argv)
  unfolding exec_decr
  exec_decr-Safe [] = wrong_argc-Safe ht sound [] "1"
  exec_decr-Safe (key ∷ []) = with_type-Safe ht sound key "string" _ (
      Safe-bind _ (htable_get-Safe sound key) (
        Safe-option (λ _. Unit) _ _ (λ _. store_number-Safe key (negsuc 0))
          λ s _.
            Safe-if _ _ (is_number s)
              (λ _.
                Safe-bind _ (strtoi-Safe s)
                  λ x _. Safe-bind _ (int_ℤ-Safe (x -ℤ pos 1)) λ y _. store_number-Safe key y)
              (λ _. Safe.returns _ (sound, reply_err_intid-Plain))))
  exec_decr-Safe (key ∷ next ∷ argv) = wrong_argc-Safe ht sound (key ∷ next ∷ argv) "1"

  incrby_from-Safe :
      (key amount : Str) (res : Option Str) → SafeResult (incrby_from ht key amount res)
  unfolding incrby_from is_number_at strtoi_at
  incrby_from-Safe key amount none =
      Safe-if _ _ (is_number amount)
        (λ _. Safe-bind _ (strtoi-Safe amount) λ tmp _. store_number-Safe key tmp)
        (λ _. Safe.fails Fault.null_pointer tt)
  incrby_from-Safe key amount (some s) =
      Safe-if _ _ (is_number s && is_number amount)
        (λ _. Safe-bind _ (strtoi-Safe s) λ x _.
          Safe-bind _ (strtoi-Safe amount)
            λ y _. Safe-bind _ (int_ℤ-Safe (x +ℤ y)) λ tmp _. store_number-Safe key tmp)
        (λ _. Safe.returns _ (sound, reply_err_intid-Plain))

  decrby_from-Safe :
      (key amount : Str) (res : Option Str) → SafeResult (decrby_from ht key amount res)
  unfolding decrby_from is_number_at strtoi_at
  decrby_from-Safe key amount none =
      Safe-if _ _ (is_number amount)
        (λ _. Safe-bind _ (strtoi-Safe amount) λ tmp _. store_number-Safe key tmp)
        (λ _. Safe.fails Fault.null_pointer tt)
  decrby_from-Safe key amount (some s) =
      Safe-if _ _ (is_number s && is_number amount)
        (λ _. Safe-bind _ (strtoi-Safe s) λ x _.
          Safe-bind _ (strtoi-Safe amount)
            λ y _. Safe-bind _ (int_ℤ-Safe (x -ℤ y)) λ tmp _. store_number-Safe key tmp)
        (λ _. Safe.returns _ (sound, reply_err_intid-Plain))

  pub exec_incrby-Safe : (argv : List Str) → SafeResult (exec_incrby ht argv)
  unfolding exec_incrby
  exec_incrby-Safe [] = wrong_argc-Safe ht sound [] "2"
  exec_incrby-Safe (key ∷ []) = wrong_argc-Safe ht sound (key ∷ []) "2"
  exec_incrby-Safe (key ∷ amount ∷ []) =
      with_type-Safe ht sound key "string" _
        (Safe-bind _ (htable_get-Safe sound key) λ res _. incrby_from-Safe key amount res)
  exec_incrby-Safe (key ∷ amount ∷ next ∷ argv) =
      wrong_argc-Safe ht sound (key ∷ amount ∷ next ∷ argv) "2"

  pub exec_decrby-Safe : (argv : List Str) → SafeResult (exec_decrby ht argv)
  unfolding exec_decrby
  exec_decrby-Safe [] = wrong_argc-Safe ht sound [] "2"
  exec_decrby-Safe (key ∷ []) = wrong_argc-Safe ht sound (key ∷ []) "2"
  exec_decrby-Safe (key ∷ amount ∷ []) =
      with_type-Safe ht sound key "string" _
        (Safe-bind _ (htable_get-Safe sound key) λ res _. decrby_from-Safe key amount res)
  exec_decrby-Safe (key ∷ amount ∷ next ∷ argv) =
      wrong_argc-Safe ht sound (key ∷ amount ∷ next ∷ argv) "2"

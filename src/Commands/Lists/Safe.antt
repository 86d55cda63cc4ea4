-- ===== src/Commands/Lists/Safe.antt =====
-- The list commands keep the table sound.
use hyperkv.Base.{
  Bool, none, if◌then◌else◌, ℤ, true, false, ℕ, ◌&&◌, List, [], ◌∷◌, pos, ltb_ℤ, is_zero, Str, Safe,
  Safe-bind, Safe-if,
}
use hyperkv.Commands.Lists.{
  push_loop, exec_push, exec_pop, exec_llen, exec_lindex, exec_lrange, exec_lset, exec_lrem,
  exec_lpos,
}
use hyperkv.Commands.Safe.{SafeResult, with_type-Safe, wrong_argc-Safe, Safe-reading, Safe-array}
use hyperkv.Helper.Number.{is_number}
use hyperkv.Helper.Number.Safe.{strtoi-Safe}
use hyperkv.Objects.Lists.{ListDirection}
use hyperkv.Objects.Lists.Safe.{
  htable_push-Safe, htable_pop-Safe, htable_llen-Safe, htable_check_id-Safe, htable_check_ids-Safe,
  htable_lindex-Safe, htable_lset-Safe, htable_lrem-Safe, htable_lpos-Safe, htable_lrange-Safe,
}
use hyperkv.Reply.{reply_string, reply_integer}
use hyperkv.Reply.Safe.{
  Plain, reply_string-Plain, reply_integer-Plain, reply_err_intid-Plain, reply_array-Safe,
}
use hyperkv.Value.{Store}
use hyperkv.Value.Safe.{IsSafeStore}

position-Plain :
    (res : ℤ) → Plain (if ltb_ℤ res (pos 0) then reply_string none else reply_integer res)
position-Plain res = go (ltb_ℤ res (pos 0))
  where
    go : (b : Bool) → Plain (if b then reply_string none else reply_integer res)
    go true = reply_string-Plain none
    go false = reply_integer-Plain res

push_loop-Safe :
    (ht : Store)
    → IsSafeStore ht
    → (key : Str) (argv : List Str) (dir : ListDirection) (len : ℕ)
    → Safe (λ r. IsSafeStore r.0) (push_loop ht key argv dir len)
unfolding push_loop
push_loop-Safe ht sound key [] dir len = Safe.returns _ sound
push_loop-Safe ht sound key (value ∷ argv) dir len =
    Safe-bind _ (htable_push-Safe ht sound key value dir)
      λ r sound'. push_loop-Safe r.0 sound' key argv dir r.1

module _ (ht : Store) (sound : IsSafeStore ht) where
  pub exec_push-Safe : (argv : List Str) (dir : ListDirection) → SafeResult (exec_push ht argv dir)
  unfolding exec_push
  exec_push-Safe [] dir = wrong_argc-Safe ht sound [] "2+"
  exec_push-Safe (key ∷ []) dir = wrong_argc-Safe ht sound (key ∷ []) "2+"
  exec_push-Safe (key ∷ value ∷ argv) dir = with_type-Safe ht sound key "list" _ (
      Safe-bind _ (push_loop-Safe ht sound key (value ∷ argv) dir 0)
        λ r sound'. Safe.returns _ (sound', reply_integer-Plain _))

  pub exec_pop-Safe : (argv : List Str) (dir : ListDirection) → SafeResult (exec_pop ht argv dir)
  unfolding exec_pop
  exec_pop-Safe [] dir = wrong_argc-Safe ht sound [] "1"
  exec_pop-Safe (key ∷ []) dir = with_type-Safe ht sound key "list" _ (
      Safe-bind _ (htable_pop-Safe ht sound key dir)
        λ r sound'. Safe.returns _ (sound', reply_string-Plain _))
  exec_pop-Safe (key ∷ next ∷ argv) dir = wrong_argc-Safe ht sound (key ∷ next ∷ argv) "1"

  pub exec_llen-Safe : (argv : List Str) → SafeResult (exec_llen ht argv)
  unfolding exec_llen
  exec_llen-Safe [] = wrong_argc-Safe ht sound [] "1"
  exec_llen-Safe (key ∷ []) =
      with_type-Safe ht sound key "list" _
        (Safe-reading ht sound _ (λ a. reply_integer-Plain _) (htable_llen-Safe ht sound key))
  exec_llen-Safe (key ∷ next ∷ argv) = wrong_argc-Safe ht sound (key ∷ next ∷ argv) "1"

  pub exec_lindex-Safe : (argv : List Str) → SafeResult (exec_lindex ht argv)
  unfolding exec_lindex
  exec_lindex-Safe [] = wrong_argc-Safe ht sound [] "2"
  exec_lindex-Safe (key ∷ []) = wrong_argc-Safe ht sound (key ∷ []) "2"
  exec_lindex-Safe (key ∷ index ∷ []) = with_type-Safe ht sound key "list" _ (
      Safe-if _ _ (is_number index)
        (λ _. Safe-bind _ (strtoi-Safe index) λ given _.
          Safe-bind _ (htable_check_id-Safe ht sound key given) λ r _.
            Safe-if _ _ (is_zero r.0) (λ _. Safe.returns _ (sound, reply_err_intid-Plain))
              λ _.
                (Safe-bind {P = λ _. Unit} _
                  (Safe-if _ _ (ltb_ℤ (pos 0) r.0) (λ _. htable_lindex-Safe ht sound key r.1)
                    (λ _. Safe.returns _ tt))
                  λ res _. Safe.returns _ (sound, reply_string-Plain _)))
        (λ _. Safe.returns _ (sound, reply_err_intid-Plain)))
  exec_lindex-Safe (key ∷ index ∷ next ∷ argv) =
      wrong_argc-Safe ht sound (key ∷ index ∷ next ∷ argv) "2"

  pub exec_lrange-Safe : (argv : List Str) → SafeResult (exec_lrange ht argv)
  unfolding exec_lrange
  exec_lrange-Safe [] = wrong_argc-Safe ht sound [] "3"
  exec_lrange-Safe (key ∷ []) = wrong_argc-Safe ht sound (key ∷ []) "3"
  exec_lrange-Safe (key ∷ first ∷ []) = wrong_argc-Safe ht sound (key ∷ first ∷ []) "3"
  exec_lrange-Safe (key ∷ first ∷ last ∷ []) = with_type-Safe ht sound key "list" _ (
      Safe-if _ _ (is_number first && is_number last)
        (λ _. Safe-bind _ (strtoi-Safe first) λ given _. Safe-bind _ (strtoi-Safe last) λ given' _.
          Safe-bind _ (htable_check_ids-Safe ht sound key given given') λ r _.
            Safe-if _ _ (is_zero r.0) (λ _. Safe.returns _ (sound, reply_err_intid-Plain))
              λ _.
                (Safe-bind {P = λ _. Unit} _
                  (Safe-if _ _ (ltb_ℤ (pos 0) r.0) (λ _. htable_lrange-Safe ht sound key r.1 r.2)
                    (λ _. Safe.returns _ tt))
                  λ res _. Safe-array ht sound (reply_array-Safe res)))
        (λ _. Safe.returns _ (sound, reply_err_intid-Plain)))
  exec_lrange-Safe (key ∷ first ∷ last ∷ next ∷ argv) =
      wrong_argc-Safe ht sound (key ∷ first ∷ last ∷ next ∷ argv) "3"

  pub exec_lset-Safe : (argv : List Str) → SafeResult (exec_lset ht argv)
  unfolding exec_lset
  exec_lset-Safe [] = wrong_argc-Safe ht sound [] "3"
  exec_lset-Safe (key ∷ []) = wrong_argc-Safe ht sound (key ∷ []) "3"
  exec_lset-Safe (key ∷ index ∷ []) = wrong_argc-Safe ht sound (key ∷ index ∷ []) "3"
  exec_lset-Safe (key ∷ index ∷ value ∷ []) = with_type-Safe ht sound key "list" _ (
      Safe-if _ _ (is_number index)
        (λ _. Safe-bind _ (strtoi-Safe index) λ given _.
          Safe-bind _ (htable_check_id-Safe ht sound key given) λ r _.
            Safe-if _ _ (is_zero r.0) (λ _. Safe.returns _ (sound, reply_err_intid-Plain))
              λ _.
                (Safe-bind _ (htable_lset-Safe ht sound key r.1 value)
                  λ r' sound'. Safe.returns _ (sound', reply_string-Plain _)))
        (λ _. Safe.returns _ (sound, reply_err_intid-Plain)))
  exec_lset-Safe (key ∷ index ∷ value ∷ next ∷ argv) =
      wrong_argc-Safe ht sound (key ∷ index ∷ value ∷ next ∷ argv) "3"

  pub exec_lrem-Safe : (argv : List Str) → SafeResult (exec_lrem ht argv)
  unfolding exec_lrem
  exec_lrem-Safe [] = wrong_argc-Safe ht sound [] "3"
  exec_lrem-Safe (key ∷ []) = wrong_argc-Safe ht sound (key ∷ []) "3"
  exec_lrem-Safe (key ∷ number ∷ []) = wrong_argc-Safe ht sound (key ∷ number ∷ []) "3"
  exec_lrem-Safe (key ∷ number ∷ value ∷ []) = with_type-Safe ht sound key "list" _ (
      Safe-if _ _ (is_number number)
        (λ _. Safe-bind _ (strtoi-Safe number) λ count _.
          Safe-bind _ (htable_lrem-Safe ht sound key count value)
            λ r sound'. Safe.returns _ (sound', reply_integer-Plain _))
        (λ _. Safe.returns _ (sound, reply_err_intid-Plain)))
  exec_lrem-Safe (key ∷ number ∷ value ∷ next ∷ argv) =
      wrong_argc-Safe ht sound (key ∷ number ∷ value ∷ next ∷ argv) "3"

  pub exec_lpos-Safe : (argv : List Str) → SafeResult (exec_lpos ht argv)
  unfolding exec_lpos
  exec_lpos-Safe [] = wrong_argc-Safe ht sound [] "2"
  exec_lpos-Safe (key ∷ []) = wrong_argc-Safe ht sound (key ∷ []) "2"
  exec_lpos-Safe (key ∷ value ∷ []) = with_type-Safe ht sound key "list" _ (
      Safe-bind _ (htable_lpos-Safe ht sound key value)
        λ res _. Safe.returns _ (sound, position-Plain res))
  exec_lpos-Safe (key ∷ value ∷ next ∷ argv) =
      wrong_argc-Safe ht sound (key ∷ value ∷ next ∷ argv) "2"

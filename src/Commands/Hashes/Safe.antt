-- ===== src/Commands/Hashes/Safe.antt =====
-- The hash commands keep the table sound.
use hyperkv.Base.{
  ℕ, ◌+◌, ◌%◌, ◌==◌, ◌&&◌, leb, Bool, true, false, List, [], ◌∷◌, none, ◌≡◌, arith, Str, length,
  Safe, Safe-bind, Safe-if,
}
use hyperkv.Commands.Hashes.{
  hset_loop, exec_hset, exec_hget, hdel_loop, exec_hdel, exec_hgetall, exec_hexists, exec_hkeyvals,
  exec_hkeys, exec_hvals, hget_all, exec_hmget, exec_hlen,
}
use hyperkv.Commands.Keys.{to_int}
use hyperkv.Commands.Safe.{SafeResult, with_type-Safe, wrong_argc-Safe, Safe-reading, Safe-array}
use hyperkv.HTable.Sound.{exists-Safe}
use hyperkv.Objects.Hashes.Safe.{
  htable_hset-Safe, htable_hget-Safe, htable_hdel-Safe, htable_hgetall-Safe, htable_hkeyvals-Safe,
  htable_hlen-Safe,
}
use hyperkv.Reply.Safe.{
  reply_string-Plain, reply_integer-Plain, reply_array-Safe, reply_array_n-Safe,
}
use hyperkv.Value.{Store}
use hyperkv.Value.Safe.{IsSafeStore}

-- The loop takes its arguments in pairs.
hset_loop-Safe :
    (ht : Store)
    → IsSafeStore ht
    → (key : Str) (argv : List Str) (oks : ℕ) → length argv % 2 ≡ 0
    → Safe (λ r. IsSafeStore r.0) (hset_loop ht key argv oks)
unfolding hset_loop
hset_loop-Safe ht sound key [] oks even = Safe.returns _ sound
hset_loop-Safe ht sound key (field ∷ []) oks even = absurd (omega arith)
hset_loop-Safe ht sound key (field ∷ value ∷ argv) oks even =
    Safe-bind _ (htable_hset-Safe ht sound key field value)
      λ r sound'. hset_loop-Safe r.0 sound' key argv (oks + to_int r.1) (omega arith)

hdel_loop-Safe :
    (ht : Store)
    → IsSafeStore ht
    → (key : Str) (argv : List Str) (oks : ℕ)
    → Safe (λ r. IsSafeStore r.0) (hdel_loop ht key argv oks)
unfolding hdel_loop
hdel_loop-Safe ht sound key [] oks = Safe.returns _ sound
hdel_loop-Safe ht sound key (field ∷ argv) oks =
    Safe-bind _ (htable_hdel-Safe ht sound key field)
      λ r sound'. hdel_loop-Safe r.0 sound' key argv (oks + to_int r.1)

module _ (ht : Store) (sound : IsSafeStore ht) where
  pub exec_hset-Safe : (argv : List Str) → SafeResult (exec_hset ht argv)
  unfolding exec_hset
  exec_hset-Safe [] = wrong_argc-Safe ht sound [] "3+"
  exec_hset-Safe (key ∷ argv) =
      Safe-if _ _ (leb 2 (length argv) && length argv % 2 == 0)
        (λ e. with_type-Safe ht sound key "hash" _ (
          Safe-bind _ (hset_loop-Safe ht sound key argv 0 (ground arith))
            λ r sound'. Safe.returns _ (sound', reply_integer-Plain _)))
        (λ _. wrong_argc-Safe ht sound (key ∷ argv) "3+")

  pub exec_hget-Safe : (argv : List Str) → SafeResult (exec_hget ht argv)
  unfolding exec_hget
  exec_hget-Safe [] = wrong_argc-Safe ht sound [] "2"
  exec_hget-Safe (key ∷ []) = wrong_argc-Safe ht sound (key ∷ []) "2"
  exec_hget-Safe (key ∷ field ∷ []) =
      with_type-Safe ht sound key "hash" _
        (Safe-reading ht sound _ (λ a. reply_string-Plain _) (htable_hget-Safe ht sound key field))
  exec_hget-Safe (key ∷ field ∷ next ∷ argv) =
      wrong_argc-Safe ht sound (key ∷ field ∷ next ∷ argv) "2"

  pub exec_hdel-Safe : (argv : List Str) → SafeResult (exec_hdel ht argv)
  unfolding exec_hdel
  exec_hdel-Safe [] = wrong_argc-Safe ht sound [] "2+"
  exec_hdel-Safe (key ∷ []) = wrong_argc-Safe ht sound (key ∷ []) "2+"
  exec_hdel-Safe (key ∷ field ∷ argv) = with_type-Safe ht sound key "hash" _ (
      Safe-bind _ (hdel_loop-Safe ht sound key (field ∷ argv) 0)
        λ r sound'. Safe.returns _ (sound', reply_integer-Plain _))

  pub exec_hgetall-Safe : (argv : List Str) → SafeResult (exec_hgetall ht argv)
  unfolding exec_hgetall
  exec_hgetall-Safe [] = wrong_argc-Safe ht sound [] "1"
  exec_hgetall-Safe (key ∷ []) = with_type-Safe ht sound key "hash" _ (
      Safe-bind _ (htable_hgetall-Safe ht sound key)
        λ res _. Safe-array ht sound (reply_array-Safe res))
  exec_hgetall-Safe (key ∷ next ∷ argv) = wrong_argc-Safe ht sound (key ∷ next ∷ argv) "1"

  pub exec_hexists-Safe : (argv : List Str) → SafeResult (exec_hexists ht argv)
  unfolding exec_hexists
  exec_hexists-Safe [] = wrong_argc-Safe ht sound [] "2"
  exec_hexists-Safe (key ∷ []) = wrong_argc-Safe ht sound (key ∷ []) "2"
  exec_hexists-Safe (key ∷ field ∷ []) =
      with_type-Safe ht sound key "hash" _
        (Safe-reading ht sound _ (λ a. reply_integer-Plain _) (htable_hget-Safe ht sound key field))
  exec_hexists-Safe (key ∷ field ∷ next ∷ argv) =
      wrong_argc-Safe ht sound (key ∷ field ∷ next ∷ argv) "2"

  exec_hkeyvals-Safe : (argv : List Str) (ky : Bool) → SafeResult (exec_hkeyvals ht argv ky)
  unfolding exec_hkeyvals
  exec_hkeyvals-Safe [] ky = wrong_argc-Safe ht sound [] "1"
  exec_hkeyvals-Safe (key ∷ []) ky = with_type-Safe ht sound key "hash" _ (
      Safe-bind _ (htable_hkeyvals-Safe ht sound key ky)
        λ res _. Safe-array ht sound (reply_array-Safe res))
  exec_hkeyvals-Safe (key ∷ next ∷ argv) ky = wrong_argc-Safe ht sound (key ∷ next ∷ argv) "1"

  pub exec_hkeys-Safe : (argv : List Str) → SafeResult (exec_hkeys ht argv)
  unfolding exec_hkeys
  exec_hkeys-Safe argv = exec_hkeyvals-Safe argv true

  pub exec_hvals-Safe : (argv : List Str) → SafeResult (exec_hvals ht argv)
  unfolding exec_hvals
  exec_hvals-Safe argv = exec_hkeyvals-Safe argv false

  hget_all-Safe : (key : Str) (argv : List Str) → Safe (λ _. Unit) (hget_all ht key argv)
  unfolding hget_all
  hget_all-Safe key [] = Safe.returns _ tt
  hget_all-Safe key (field ∷ argv) =
      let more = hget_all-Safe key argv in
      Safe-bind _ (htable_hget-Safe ht sound key field)
        λ tmp _. Safe-bind _ more λ rest _. Safe.returns _ tt

  pub exec_hmget-Safe : (argv : List Str) → SafeResult (exec_hmget ht argv)
  unfolding exec_hmget
  exec_hmget-Safe [] = wrong_argc-Safe ht sound [] "2+"
  exec_hmget-Safe (key ∷ []) = wrong_argc-Safe ht sound (key ∷ []) "2+"
  exec_hmget-Safe (key ∷ field ∷ argv) = with_type-Safe ht sound key "hash" _ (
      Safe-bind _ (exists-Safe sound key) λ exists _.
        Safe-if _ _ exists
          (λ _.
            Safe-bind _ (hget_all-Safe key (field ∷ argv))
              λ res _. Safe-array ht sound (reply_array_n-Safe res))
          (λ _. Safe-array ht sound (reply_array-Safe none)))

  pub exec_hlen-Safe : (argv : List Str) → SafeResult (exec_hlen ht argv)
  unfolding exec_hlen
  exec_hlen-Safe [] = wrong_argc-Safe ht sound [] "1"
  exec_hlen-Safe (key ∷ []) =
      with_type-Safe ht sound key "hash" _
        (Safe-reading ht sound _ (λ a. reply_integer-Plain _) (htable_hlen-Safe ht sound key))
  exec_hlen-Safe (key ∷ next ∷ argv) = wrong_argc-Safe ht sound (key ∷ next ∷ argv) "1"

-- ===== src/Commands/Sets/Safe.antt =====
-- The set commands keep the table sound.
use hyperkv.Base.{pos, ℕ, ◌+◌, Bool, List, [], ◌∷◌, none, Run, Str, Safe, Safe-bind, Safe-if}
use hyperkv.Commands.Keys.{to_int}
use hyperkv.Commands.Safe.{SafeResult, with_type-Safe, wrong_argc-Safe, Safe-reading, Safe-array}
use hyperkv.Commands.Sets.{
  to_int, count_loop, exec_sadd, exec_srem, exec_sismember, exec_smembers, sismember_all,
  exec_smismember,
}
use hyperkv.Helper.Number.Digits.{intostr-Safe}
use hyperkv.HTable.Sound.{exists-Safe}
use hyperkv.Objects.Sets.{htable_sadd, htable_srem}
use hyperkv.Objects.Sets.Safe.{
  htable_sadd-Safe, htable_srem-Safe, htable_sismember-Safe, htable_smembers-Safe,
}
use hyperkv.Reply.Safe.{reply_integer-Plain, reply_array-Safe, reply_array_n-Safe}
use hyperkv.Value.{Store}
use hyperkv.Value.Safe.{IsSafeStore}

count_loop-Safe :
    (step : Store → Str → Str → Run (Store × Bool))
    → ((ht : Store)
        → IsSafeStore ht
        → (key value : Str) → Safe (λ r. IsSafeStore r.0) (step ht key value))
    → (ht : Store) → IsSafeStore ht
    → (key : Str) (argv : List Str) (oks : ℕ)
    → Safe (λ r. IsSafeStore r.0) (count_loop step ht key argv oks)
unfolding count_loop
count_loop-Safe step law ht sound key [] oks = Safe.returns _ sound
count_loop-Safe step law ht sound key (value ∷ argv) oks =
    Safe-bind _ (law ht sound key value)
      λ r sound'. count_loop-Safe step law r.0 sound' key argv (oks + to_int r.1)

module _ (ht : Store) (sound : IsSafeStore ht) where
  pub exec_sadd-Safe : (argv : List Str) → SafeResult (exec_sadd ht argv)
  unfolding exec_sadd
  exec_sadd-Safe [] = wrong_argc-Safe ht sound [] "2+"
  exec_sadd-Safe (key ∷ []) = wrong_argc-Safe ht sound (key ∷ []) "2+"
  exec_sadd-Safe (key ∷ value ∷ argv) = with_type-Safe ht sound key "set" _ (
      Safe-bind _ (count_loop-Safe htable_sadd htable_sadd-Safe ht sound key (value ∷ argv) 0)
        λ r sound'. Safe.returns _ (sound', reply_integer-Plain _))

  pub exec_srem-Safe : (argv : List Str) → SafeResult (exec_srem ht argv)
  unfolding exec_srem
  exec_srem-Safe [] = wrong_argc-Safe ht sound [] "2+"
  exec_srem-Safe (key ∷ []) = wrong_argc-Safe ht sound (key ∷ []) "2+"
  exec_srem-Safe (key ∷ value ∷ argv) = with_type-Safe ht sound key "set" _ (
      Safe-bind _ (count_loop-Safe htable_srem htable_srem-Safe ht sound key (value ∷ argv) 0)
        λ r sound'. Safe.returns _ (sound', reply_integer-Plain _))

  pub exec_sismember-Safe : (argv : List Str) → SafeResult (exec_sismember ht argv)
  unfolding exec_sismember
  exec_sismember-Safe [] = wrong_argc-Safe ht sound [] "2"
  exec_sismember-Safe (key ∷ []) = wrong_argc-Safe ht sound (key ∷ []) "2"
  exec_sismember-Safe (key ∷ value ∷ []) = with_type-Safe ht sound key "set" _ (
      Safe-reading ht sound _ (λ a. reply_integer-Plain _)
        (htable_sismember-Safe ht sound key value))
  exec_sismember-Safe (key ∷ value ∷ next ∷ argv) =
      wrong_argc-Safe ht sound (key ∷ value ∷ next ∷ argv) "2"

  pub exec_smembers-Safe : (argv : List Str) → SafeResult (exec_smembers ht argv)
  unfolding exec_smembers
  exec_smembers-Safe [] = wrong_argc-Safe ht sound [] "1"
  exec_smembers-Safe (key ∷ []) = with_type-Safe ht sound key "set" _ (
      Safe-bind _ (htable_smembers-Safe ht sound key)
        λ res _. Safe-array ht sound (reply_array-Safe res))
  exec_smembers-Safe (key ∷ next ∷ argv) = wrong_argc-Safe ht sound (key ∷ next ∷ argv) "1"

  sismember_all-Safe : (key : Str) (argv : List Str) → Safe (λ _. Unit) (sismember_all ht key argv)
  unfolding sismember_all
  sismember_all-Safe key [] = Safe.returns _ tt
  sismember_all-Safe key (value ∷ argv) =
      let more = sismember_all-Safe key argv in
      Safe-bind _ (htable_sismember-Safe ht sound key value) λ x _.
        Safe-bind _ (intostr-Safe (pos (to_int x)))
          λ str _. Safe-bind _ more λ rest _. Safe.returns _ tt

  pub exec_smismember-Safe : (argv : List Str) → SafeResult (exec_smismember ht argv)
  unfolding exec_smismember
  exec_smismember-Safe [] = wrong_argc-Safe ht sound [] "2+"
  exec_smismember-Safe (key ∷ []) = wrong_argc-Safe ht sound (key ∷ []) "2+"
  exec_smismember-Safe (key ∷ value ∷ argv) = with_type-Safe ht sound key "set" _ (
      Safe-bind _ (exists-Safe sound key) λ exists _.
        Safe-if _ _ exists
          (λ _.
            Safe-bind _ (sismember_all-Safe key (value ∷ argv))
              λ res _. Safe-array ht sound (reply_array_n-Safe res))
          (λ _. Safe-array ht sound (reply_array-Safe none)))

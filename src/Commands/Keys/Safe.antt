-- ===== src/Commands/Keys/Safe.antt =====
-- `del`, `exists` and `type` keep the table sound.
use hyperkv.Base.{ℕ, ◌+◌, List, [], ◌∷◌, Str, Safe, Safe-bind}
use hyperkv.Commands.Keys.{to_int, del_loop, exec_del, exists_loop, exec_exists, exec_type}
use hyperkv.Commands.Safe.{SafeResult, wrong_argc-Safe, Safe-reading}
use hyperkv.HTable.Safe.{htable_del-Safe}
use hyperkv.HTable.Sound.{exists-Safe}
use hyperkv.Objects.Safe.{htable_type-Safe}
use hyperkv.Reply.Safe.{reply_string-Plain, reply_integer-Plain}
use hyperkv.Value.{Store}
use hyperkv.Value.Safe.{IsWhole, IsSafeStore}

del_loop-Safe :
    (ht : Store)
    → IsSafeStore ht
    → (argv : List Str) (oks : ℕ) → Safe (λ r. IsSafeStore r.0) (del_loop ht argv oks)
unfolding del_loop
del_loop-Safe ht sound [] oks = Safe.returns _ sound
del_loop-Safe ht sound (key ∷ argv) oks =
    Safe-bind _ (htable_del-Safe IsWhole ht sound key)
      λ r sound'. del_loop-Safe r.0 sound' argv (oks + to_int r.1)

module _ (ht : Store) (sound : IsSafeStore ht) where
  pub exec_del-Safe : (argv : List Str) → SafeResult (exec_del ht argv)
  unfolding exec_del
  exec_del-Safe [] = wrong_argc-Safe ht sound [] "1+"
  exec_del-Safe (key ∷ argv) =
      Safe-bind _ (del_loop-Safe ht sound (key ∷ argv) 0)
        λ r sound'. Safe.returns _ (sound', reply_integer-Plain _)

  exists_loop-Safe : (argv : List Str) (oks : ℕ) → Safe (λ _. Unit) (exists_loop ht argv oks)
  unfolding exists_loop
  exists_loop-Safe [] oks = Safe.returns _ tt
  exists_loop-Safe (key ∷ argv) oks =
      Safe-bind _ (exists-Safe sound key) λ res _. exists_loop-Safe argv (oks + to_int res)

  pub exec_exists-Safe : (argv : List Str) → SafeResult (exec_exists ht argv)
  unfolding exec_exists
  exec_exists-Safe [] = wrong_argc-Safe ht sound [] "1+"
  exec_exists-Safe (key ∷ argv) =
      Safe-reading ht sound _ (λ a. reply_integer-Plain _) (exists_loop-Safe (key ∷ argv) 0)

  pub exec_type-Safe : (argv : List Str) → SafeResult (exec_type ht argv)
  unfolding exec_type
  exec_type-Safe [] = wrong_argc-Safe ht sound [] "1"
  exec_type-Safe (key ∷ []) =
      Safe-reading ht sound _ (λ a. reply_string-Plain _) (htable_type-Safe ht sound key)
  exec_type-Safe (key ∷ next ∷ argv) = wrong_argc-Safe ht sound (key ∷ next ∷ argv) "1"

-- ===== src/Commands/Strings/Safe.antt =====
-- `set`, `get`, `mset`, `mget` and `strlen` keep the table sound.
use hyperkv.Base.{
  ◌%◌, ◌==◌, ◌&&◌, leb, List, [], ◌∷◌, ◌≡◌, arith, Str, length, Safe, Safe-bind, Safe-if,
}
use hyperkv.Commands.Safe.{SafeResult, with_type-Safe, wrong_argc-Safe, Safe-reading, Safe-array}
use hyperkv.Commands.Strings.{
  exec_set, exec_get, mset_loop, exec_mset, get_all, exec_mget, exec_strlen,
}
use hyperkv.Reply.Safe.{reply_string-Plain, reply_integer-Plain, reply_array_n-Safe}
use hyperkv.Strings.{htable_set}
use hyperkv.Strings.Safe.{htable_set-Safe, htable_get-Safe}
use hyperkv.Value.{Store}
use hyperkv.Value.Safe.{IsWhole, IsSafeStore}

pub set-Safe :
    (ht : Store)
    → IsSafeStore ht
    → (key value : Str) → Safe (λ r. IsSafeStore r.0) (htable_set ht key value)
set-Safe ht sound key value = htable_set-Safe IsWhole (λ s. tt) ht sound key value

-- The loop takes its arguments in pairs.
mset_loop-Safe :
    (ht : Store)
    → IsSafeStore ht
    → (argv : List Str) → length argv % 2 ≡ 0
    → Safe IsSafeStore (mset_loop ht argv)
unfolding mset_loop
mset_loop-Safe ht sound [] even = Safe.returns _ sound
mset_loop-Safe ht sound (key ∷ []) even = absurd (omega arith)
mset_loop-Safe ht sound (key ∷ value ∷ argv) even =
    Safe-bind _ (set-Safe ht sound key value)
      λ r sound'. mset_loop-Safe r.0 sound' argv (omega arith)

module _ (ht : Store) (sound : IsSafeStore ht) where
  pub exec_set-Safe : (argv : List Str) → SafeResult (exec_set ht argv)
  unfolding exec_set
  exec_set-Safe [] = Safe.returns _ (sound, reply_string-Plain _)
  exec_set-Safe (key ∷ []) =
      Safe-bind _ (set-Safe ht sound key [])
        λ r sound'. Safe.returns _ (sound', reply_string-Plain _)
  exec_set-Safe (key ∷ value ∷ []) =
      Safe-bind _ (set-Safe ht sound key value)
        λ r sound'. Safe.returns _ (sound', reply_string-Plain _)
  exec_set-Safe (key ∷ value ∷ next ∷ argv) =
      wrong_argc-Safe ht sound (key ∷ value ∷ next ∷ argv) "0..2"

  pub exec_get-Safe : (argv : List Str) → SafeResult (exec_get ht argv)
  unfolding exec_get
  exec_get-Safe [] = wrong_argc-Safe ht sound [] "1"
  exec_get-Safe (key ∷ []) =
      with_type-Safe ht sound key "string" _
        (Safe-reading ht sound _ (λ a. reply_string-Plain _) (htable_get-Safe sound key))
  exec_get-Safe (key ∷ next ∷ argv) = wrong_argc-Safe ht sound (key ∷ next ∷ argv) "1"

  pub exec_mset-Safe : (argv : List Str) → SafeResult (exec_mset ht argv)
  unfolding exec_mset
  exec_mset-Safe argv =
      Safe-if _ _ (leb 2 (length argv) && length argv % 2 == 0)
        (λ e.
          Safe-bind _ (mset_loop-Safe ht sound argv (ground arith))
            λ ht' sound'. Safe.returns _ (sound', reply_string-Plain _))
        (λ _. wrong_argc-Safe ht sound argv "2+")

  get_all-Safe : (argv : List Str) → Safe (λ _. Unit) (get_all ht argv)
  unfolding get_all
  get_all-Safe [] = Safe.returns _ tt
  get_all-Safe (key ∷ argv) =
      let more = get_all-Safe argv in
      Safe-bind _ (htable_get-Safe sound key) λ tmp _. Safe-bind _ more λ rest _. Safe.returns _ tt

  pub exec_mget-Safe : (argv : List Str) → SafeResult (exec_mget ht argv)
  unfolding exec_mget
  exec_mget-Safe [] = wrong_argc-Safe ht sound [] "1+"
  exec_mget-Safe (key ∷ argv) = with_type-Safe ht sound key "string" _ (
      Safe-bind _ (get_all-Safe (key ∷ argv)) λ res _. Safe-array ht sound (reply_array_n-Safe res))

  pub exec_strlen-Safe : (argv : List Str) → SafeResult (exec_strlen ht argv)
  unfolding exec_strlen
  exec_strlen-Safe [] = wrong_argc-Safe ht sound [] "1"
  exec_strlen-Safe (key ∷ []) =
      with_type-Safe ht sound key "string" _
        (Safe-reading ht sound _ (λ a. reply_integer-Plain _) (htable_get-Safe sound key))
  exec_strlen-Safe (key ∷ next ∷ argv) = wrong_argc-Safe ht sound (key ∷ next ∷ argv) "1"

-- ===== src/Commands/Safe.antt =====
-- Commands that keep the server's table sound.
use Prim.Native.String.{String}
use hyperkv.Base.{length, List, Run, ok, ◌>>=◌, Str, codes, Safe, Safe-bind, Safe-if}
use hyperkv.Commands.{Result, with_type, wrong_argc}
use hyperkv.Objects.Safe.{htable_type-Safe}
use hyperkv.Reply.{is_type}
use hyperkv.Reply.Safe.{Plain, reply_err_type-Plain, reply_err_argc-Plain}
use hyperkv.Value.{Store}
use hyperkv.Value.Safe.{IsSafeStore}

-- The table that a command leaves is sound, and its reply does not end the loop.
abbrev pub SafeResult : Result → Type 0
SafeResult run = Safe (λ r. IsSafeStore r.0 × Plain r.1) run

module _ (ht : Store) (sound : IsSafeStore ht) where
  pub with_type-Safe :
      (key : Str) (expected : String) (body : Result)
      → SafeResult body
      → SafeResult (with_type ht key expected body)
  unfolding with_type
  with_type-Safe key expected body safe = Safe-bind _ (htable_type-Safe ht sound key) λ type _.
      Safe-if _ _ (is_type type (codes expected)) (λ _. safe)
        (λ _. Safe.returns _ (sound, reply_err_type-Plain))

  pub wrong_argc-Safe :
      (argv : List Str) (expected : String) → SafeResult (wrong_argc ht argv expected)
  unfolding wrong_argc
  wrong_argc-Safe argv expected =
      Safe.returns _ (sound, reply_err_argc-Plain (length argv) (codes expected))

  -- A command that only reads.
  pub Safe-reading :
      {A : Type 0} {r : Run A} (answer : A → Str)
      → ((a : A) → Plain (answer a))
      → Safe (λ _. Unit) r
      → SafeResult (r >>= λ a. ok (ht, answer a))
  Safe-reading answer plain safe = Safe-bind _ safe λ a _. Safe.returns _ (sound, plain a)

  pub Safe-array : {r : Run Str} → Safe Plain r → SafeResult (r >>= λ reply. ok (ht, reply))
  Safe-array safe = Safe-bind _ safe λ reply plain. Safe.returns _ (sound, plain)

-- ===== src/Helper/Number/Safe.antt =====
-- `strtoi` ends, with a number or in an overflow.
use hyperkv.Base.{
  ℕ, ◌+◌, ◌-◌, ◌*◌, ◌==◌, [], ◌∷◌, pos, int_ℤ, ℤ, negsuc, ltb, int_max, Fault, Str, Safe, Safe-bind,
  Safe-if, int-Safe,
}
use hyperkv.Helper.Number.{strtoi_loop, strtoi}

strtoi_loop-Safe : (res : ℕ) (str : Str) → Safe (λ _. Unit) (strtoi_loop res str)
unfolding strtoi_loop
strtoi_loop-Safe res [] = Safe.returns res tt
strtoi_loop-Safe res (c ∷ str) =
    Safe-bind _ (int-Safe (res * 10))
      λ tens _. Safe-bind _ (int-Safe (tens + (c - b'0'))) λ next _. strtoi_loop-Safe next str

pub strtoi-Safe : (str : Str) → Safe (λ _. Unit) (strtoi str)
unfolding strtoi
strtoi-Safe [] = Safe.returns _ tt
strtoi-Safe (c ∷ str) =
    Safe-if _ _ (c == b'-') (λ _. Safe-bind _ (strtoi_loop-Safe 0 str) λ n _. Safe.returns _ tt)
      (λ _. Safe-bind _ (strtoi_loop-Safe 0 (c ∷ str)) λ n _. Safe.returns _ tt)

pub int_ℤ-Safe : (x : ℤ) → Safe (λ _. Unit) (int_ℤ x)
unfolding int_ℤ
int_ℤ-Safe (pos n) =
    Safe-if _ _ (ltb n int_max) (λ _. Safe.returns _ tt) (λ _. Safe.fails Fault.overflow tt)
int_ℤ-Safe (negsuc n) =
    Safe-if _ _ (ltb n int_max) (λ _. Safe.returns _ tt) (λ _. Safe.fails Fault.overflow tt)

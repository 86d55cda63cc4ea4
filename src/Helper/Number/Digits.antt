-- ===== src/Helper/Number/Digits.antt =====
-- `ndigits` of src/helper.c, and how long a printed number is.
use hyperkv.Base.{
  ℕ, zero, suc, ◌+◌, ◌/◌, ◌%◌, ◌<◌, ◌≤◌, ◌≡◌, refl, ◌∙◌, ap, arith, ℤ, pos, negsuc, int_ℤ, pos_part,
  neg_part, Run, ok, Returns, Safe, Safe-bind, Safe-Returns, int_max, ltb, Bool-cases, inl, inr,
  length, length-append, [], ◌∷◌, true,
}
use hyperkv.Helper.Number.Safe.{int_ℤ-Safe}
use hyperkv.Helper.Number.{decimal, print_int, digits_loop, ndigits, intostr}

digits_loop-zero : (g res : ℕ) → 0 < g → digits_loop g 0 res ≡ ok res
unfolding digits_loop
digits_loop-zero zero res h = absurd (omega arith)
digits_loop-zero (suc g) res h = refl

-- The loop counts the digits that are printed.
digits_loop-decimal :
    (f g n res : ℕ) → n < f → n < g → 0 < n → digits_loop g n res ≡ ok (res + length (decimal f n))
unfolding digits_loop decimal
digits_loop-decimal zero g n res enough enough' some = absurd (omega arith)
digits_loop-decimal (suc f) zero n res enough enough' some = absurd (omega arith)
digits_loop-decimal (suc f) (suc g) n res enough enough' some =
    let positive : ltb 0 n ≡ true = ground arith in
    rw positive (elim (Bool-cases (ltb n 10)) [
      | inl one ↦
          let none_left : n / 10 ≡ 0 = ground arith in
          rw (one, none_left) (digits_loop-zero g (res + 1) (omega arith))
      | inr more ↦ rw more (
          digits_loop-decimal f g (n / 10) (res + 1) (ground arith) (ground arith) (ground arith)
          ∙ ap ok (omega (arith, length-append (decimal f (n / 10)) ((b'0' + n % 10) ∷ []))))
    ])

digits_of_suc :
    (n : ℕ)
    → Returns (digits_loop (suc n + 1) (suc n) 0) λ d. length (decimal (suc (suc n)) (suc n)) ≤ d
digits_of_suc n = (
  0 + length (decimal (suc (suc n)) (suc n)),
  digits_loop-decimal (suc (suc n)) (suc n + 1) (suc n) 0 (omega arith) (omega arith) (omega arith),
  omega arith,
)

weaken : {r : Run ℕ} (a b : ℕ) → b ≤ a + 1 → Returns r (λ d. a ≤ d) → Returns r λ d. b ≤ d + 1
weaken a b le (d, run, h) = (d, run, omega arith)

int_ℤ-pos : (n : ℕ) → n < int_max → int_ℤ (pos n) ≡ ok (pos n)
unfolding int_ℤ
int_ℤ-pos n h = ground arith

-- `ndigits` ends, with a number of digits or in the overflow.
pub ndigits-Safe : (x : ℤ) → Safe (λ _. Unit) (ndigits x)
unfolding ndigits
ndigits-Safe (pos zero) = Safe-Returns (0, digits_loop-zero 1 0 (omega arith), tt)
ndigits-Safe (pos (suc n)) = let (d, run, _) = digits_of_suc n in Safe-Returns (d, run, tt)
ndigits-Safe (negsuc n) =
    Safe-bind _ (int_ℤ-Safe (pos (suc n)))
      λ _ _. let (d, run, _) = digits_of_suc n in Safe-Returns (d, run, tt)

-- For an `int` above the least `ndigits` ends, and the number as it is printed has at most a sign or a
-- zero more than the digits counted.
pub length-intostr :
    (x : ℤ)
    → pos_part x < int_max
    → neg_part x < int_max
    → Returns (ndigits x) λ d. length (print_int x) ≤ d + 1
unfolding ndigits print_int
length-intostr (pos zero) high low = (0, digits_loop-zero 1 0 (omega arith), omega arith)
length-intostr (pos (suc n)) high low =
    weaken (length (decimal (suc (suc n)) (suc n))) _ (omega arith) (digits_of_suc n)
length-intostr (negsuc n) high low =
    rw (int_ℤ-pos (suc n) low)
      (weaken (length (decimal (suc (suc n)) (suc n))) _ (omega arith) (digits_of_suc n))

-- `intostr` ends, with a text or in the overflow.
pub intostr-Safe : (x : ℤ) → Safe (λ _. Unit) (intostr x)
unfolding intostr
intostr-Safe x = Safe-bind _ (ndigits-Safe x) λ _ _. Safe.returns _ tt

pub intostr-ok :
    (x : ℤ) → pos_part x < int_max → neg_part x < int_max → intostr x ≡ ok (print_int x)
unfolding intostr
intostr-ok x high low = let (d, run, _) = length-intostr x high low in rw run refl

-- ===== src/Helper/Number/Print.antt =====
-- `strtoi` reads back what `intostr` prints.
use hyperkv.Base.{
  ℕ, zero, suc, ◌+◌, ◌-◌, ◌*◌, ◌/◌, ◌%◌, ◌<◌, true, ◌&&◌, [], ◌∷◌, ◌++◌, ◌≡◌, refl, sym, ◌∙◌, ap,
  arith, ℤ, pos, negsuc, ok, int-ok, int_max, pos_part, neg_part, Returns, Str, ltb, ◌==◌,
  Bool-cases, inl, inr,
}
use mathlib.Core.List.{append_assoc, append-nil}
use hyperkv.Helper.Number.Digits.{intostr-ok}
use hyperkv.Helper.Number.{all_digits, is_number, strtoi_loop, strtoi, decimal, print_int, intostr}

all_digits-append : (xs ys : Str) → all_digits (xs ++ ys) ≡ (all_digits xs && all_digits ys)
unfolding all_digits
all_digits-append [] ys = refl
all_digits-append (c ∷ xs) ys = ground (arith, all_digits-append xs ys)

pub decimal-digits : (fuel n : ℕ) → all_digits (decimal fuel n) ≡ true
unfolding all_digits decimal
decimal-digits zero n = refl
decimal-digits (suc fuel) n = ground (
  arith,
  decimal-digits fuel (n / 10),
  all_digits-append (decimal fuel (n / 10)) ((b'0' + n % 10) ∷ []),
)

-- One round of the loop that reads the digit `d`.
strtoi_loop-digit :
    (res d n : ℕ) (rest : Str)
    → res * 10 + d ≡ n
    → n < int_max
    → strtoi_loop res ((b'0' + d) ∷ rest) ≡ strtoi_loop n rest
unfolding strtoi_loop
strtoi_loop-digit res d n rest e fits =
    let digit : b'0' + d - b'0' ≡ d = omega arith in
    rw (int-ok (res * 10) (omega arith)) (rw (digit, e, int-ok n fits))

-- With enough rounds the digits of `n`, read from 0, bring the loop to `n`.
strtoi_loop-decimal :
    (fuel n : ℕ) (rest : Str)
    → n < fuel
    → n < int_max
    → strtoi_loop 0 (decimal fuel n ++ rest) ≡ strtoi_loop n rest
unfolding decimal
strtoi_loop-decimal zero n rest enough fits = absurd (omega arith)
strtoi_loop-decimal (suc fuel) n rest enough fits = elim (Bool-cases (ltb n 10)) [
  | inl one ↦ rw one (strtoi_loop-digit 0 n n rest (omega arith) fits)
  | inr more ↦
      rw (more, append_assoc)
        (strtoi_loop-decimal fuel (n / 10) ((b'0' + n % 10) ∷ rest) (ground arith) (omega arith)
          ∙ strtoi_loop-digit (n / 10) (n % 10) n rest (omega arith) fits)
]

decimal_reads : (n : ℕ) → n < int_max → strtoi_loop 0 (decimal (suc n) n) ≡ ok n
unfolding strtoi_loop
decimal_reads n fits =
    ap (strtoi_loop 0) (sym (append-nil (decimal (suc n) n)))
    ∙ strtoi_loop-decimal (suc n) n [] (omega arith) fits

-- Digits with no sign.
unsigned :
    (str : Str) (n : ℕ)
    → all_digits str ≡ true
    → strtoi_loop 0 str ≡ ok n
    → (is_number str ≡ true) × (strtoi str ≡ ok (pos n))
unfolding is_number strtoi
unsigned [] n digits run = (refl, cc)
unsigned (c ∷ str) n digits run = elim (Bool-cases (c == b'-')) [
  | inl sign ↦ absurd (ground arith)
  | inr digit ↦ rw digit (digits, rw run refl)
]

pub strtoi-print_int :
    (x : ℤ)
    → pos_part x < int_max
    → neg_part x < int_max
    → (is_number (print_int x) ≡ true) × (strtoi (print_int x) ≡ ok x)
unfolding print_int is_number strtoi
strtoi-print_int (pos n) fits _ =
    unsigned (decimal (suc n) n) n (decimal-digits (suc n) n) (decimal_reads n fits)
strtoi-print_int (negsuc n) _ fits =
    (decimal-digits (suc (suc n)) (suc n), rw (decimal_reads (suc n) fits) refl)

-- On an `int` above the least `intostr` runs without a fault, prints a number, and `strtoi` reads it
-- back as it was.
pub strtoi-intostr :
    (x : ℤ)
    → pos_part x < int_max
    → neg_part x < int_max
    → Returns (intostr x) λ s. (is_number s ≡ true) × (strtoi s ≡ ok x)
strtoi-intostr x high low = (print_int x, intostr-ok x high low, strtoi-print_int x high low)

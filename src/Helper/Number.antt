-- ===== src/Helper/Number.antt =====
-- The conversions between strings and integers of src/helper.c.
pub mod Safe
pub mod Print
pub mod Digits
use hyperkv.Base.{
  ℕ, zero, suc, ◌+◌, ◌-◌, ◌*◌, ◌/◌, ◌%◌, Bool, true, false, ◌&&◌, List, [], ◌∷◌, ◌++◌, ℤ, pos,
  negsuc, Run, ok, fault, Fault, ◌>>=◌, int, int_ℤ, Str, ltb, leb, ◌==◌, if◌then◌else◌,
}

-- `isdigit`
abbrev pub is_digit : ℕ → Bool
is_digit c = leb b'0' c && leb c b'9'

unfoldable pub all_digits : Str → Bool
all_digits [] = true
all_digits (c ∷ str) = is_digit c && all_digits str

unfoldable pub is_number : Str → Bool
unfolding all_digits
is_number [] = true
is_number (c ∷ str) = if c == b'-' then all_digits str else all_digits (c ∷ str)

-- `res = res * 10 + (str[i] - '0')`; every caller has tested the string with `is_number`.
strtoi_loop : ℕ → Str → Run ℕ
strtoi_loop res [] = ok res
strtoi_loop res (c ∷ str) = do
  tens ← int (res * 10)
  next ← int (tens + (c - b'0'))
  strtoi_loop next str

abbrev pub negate : ℕ → ℤ
negate zero = pos 0
negate (suc n) = negsuc n

unfoldable pub strtoi : Str → Run ℤ
unfolding strtoi_loop
strtoi [] = ok (pos 0)
strtoi (c ∷ str) =
    if c == b'-'
    then strtoi_loop 0 str >>= (λ n. ok (negate n))
    else strtoi_loop 0 (c ∷ str) >>= (λ n. ok (pos n))

-- The decimal digits that `%d` prints; `n + 1` rounds are enough.
unfoldable pub decimal : ℕ → ℕ → Str
decimal zero n = []
decimal (suc fuel) n =
    let more = decimal fuel (n / 10) in
    if ltb n 10 then (b'0' + n) ∷ [] else more ++ (b'0' + n % 10) ∷ []

-- The text that `%d` prints.
unfoldable pub print_int : ℤ → Str
unfolding decimal
print_int (pos n) = decimal (suc n) n
print_int (negsuc n) = b'-' ∷ decimal (suc (suc n)) (suc n)

-- `while (n > 0)`; more rounds are given than the loop makes.
unfoldable pub digits_loop : ℕ → ℕ → ℕ → Run ℕ
digits_loop zero n res = fault Fault.out_of_fuel
digits_loop (suc rounds) n res =
    let rest = digits_loop rounds (n / 10) (res + 1) in if ltb 0 n then rest else ok res

-- `x * -1` of the least `int` overflows.
unfoldable pub ndigits : ℤ → Run ℕ
unfolding digits_loop
ndigits (pos n) = digits_loop (n + 1) n 0
ndigits (negsuc n) = int_ℤ (pos (suc n)) >>= λ _. digits_loop (suc n + 1) (suc n) 0

-- `sprintf` into a buffer of the size that `ndigits` counts, which overflows on the least `int`.
unfoldable pub intostr : ℤ → Run Str
intostr x = do _ ← ndigits x; ok (print_int x)

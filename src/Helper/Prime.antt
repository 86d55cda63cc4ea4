-- ===== src/Helper/Prime.antt =====
-- `is_prime` and `next_prime` of src/helper.c.
pub mod Sound
pub mod Next
use hyperkv.Base.{
  ℕ, zero, suc, ◌+◌, ◌-◌, ◌*◌, ◌%◌, ◌≤◌, ◌<◌, Bool, true, false, ◌≡◌, ◌≢◌, refl, arith, Run, ok,
  fault, Fault, int_max, ltb, leb, ◌==◌, if◌then◌else◌,
}

-- `for (i = 3; i <= floor(sqrt(x)); i += 2)`, with the bound read as `i * i <= x`.
no_odd_divisor : ℕ → ℕ → ℕ → Bool
no_odd_divisor zero x i = true
no_odd_divisor (suc rounds) x i =
    let rest = no_odd_divisor rounds x (i + 2) in
    if leb (i * i) x then (if x % i == 0 then false else rest) else true

-- `x` rounds are more than the loop makes.
unfoldable pub is_prime : ℕ → Bool
unfolding no_odd_divisor
is_prime x =
    if ltb x 2
    then false
    else if x == 2
    then true
    else if x % 2 == 0
    then false
    else no_odd_divisor x x 3

-- `while (!is_prime(y)) y++;`; `y` reaches `int_max` only by a signed overflow.
unfoldable pub next_prime_loop : ℕ → ℕ → Run ℕ
next_prime_loop zero y = fault Fault.overflow
next_prime_loop (suc rounds) y =
    let rest = next_prime_loop rounds (y + 1) in if is_prime y then ok y else rest

unfoldable pub next_prime : ℕ → Run ℕ
unfolding next_prime_loop
next_prime x = if ltb x 2 then ok 2 else next_prime_loop (int_max - x) x

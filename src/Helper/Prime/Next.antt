-- ===== src/Helper/Prime/Next.antt =====
-- `next_prime` ends without overflow, in the least prime that is not below its argument.
use hyperkv.Base.{
  ℕ, zero, suc, ◌+◌, ◌-◌, ◌≤◌, ◌<◌, true, false, ◌≡◌, ◌≢◌, refl, arith, ltb, Returns, int_max, ap,
  ◌==◌, Bool-cases, inl, inr,
}
use hyperkv.Helper.Prime.{is_prime, next_prime_loop, next_prime}

-- The least prime from `x` on.
pub record IsNextPrime (x p : ℕ) : Type 0 where
  pub prime : is_prime p ≡ true
  pub above : x ≤ p
  pub least : (q : ℕ) → x ≤ q → q < p → is_prime q ≡ false

differ : (x q : ℕ) → is_prime x ≡ false → is_prime q ≡ true → x ≢ q
differ x q hx hq e = cc (ap is_prime e)

IsNextPrime-step : {x p : ℕ} → is_prime x ≡ false → IsNextPrime (x + 1) p → IsNextPrime x p
IsNextPrime-step {x} {p} later n = record {
  prime = n.prime;
  above = omega (arith, n.above);
  least = λ q low high. elim (Bool-cases (q == x)) [
    | inl e ↦ let same : q ≡ x = ground arith in rw same later
    | inr ne ↦ n.least q (ground arith) high
  ];
}

-- Some prime `q` ahead and enough rounds end the loop, at `q` or before.
next_prime_loop-IsNextPrime :
    (r x d q : ℕ)
    → x + d ≡ q
    → d < r
    → is_prime q ≡ true
    → Returns (next_prime_loop r x) λ p. IsNextPrime x p × (p ≤ q)
unfolding next_prime_loop
next_prime_loop-IsNextPrime zero x d q e fuel h = absurd (omega arith)
next_prime_loop-IsNextPrime (suc r) x d q e fuel h = elim (Bool-cases (is_prime x)) [
  | inl here ↦ (
    x,
    rw here,
    (
      record { prime = here; above = omega arith; least = λ q low high. absurd (omega arith) },
      omega arith,
    ),
  )
  | inr later ↦
      let ahead : x ≢ q = differ x q later h in
      let (p, run, (next, le)) =
        next_prime_loop-IsNextPrime r (x + 1) (d - 1) q (omega arith) (omega arith) h in
      (p, rw later run, (IsNextPrime-step later next, le))
]

module _ (x q : ℕ) (ahead : x ≤ q) (in_range : q < int_max) (prime : is_prime q ≡ true) where
  -- A prime that an `int` holds ends the search, at that prime or before it.
  pub next_prime-IsNextPrime : 2 ≤ x → Returns (next_prime x) λ p. IsNextPrime x p × (p ≤ q)
  unfolding next_prime
  next_prime-IsNextPrime two =
      let some_rounds : ltb x 2 ≡ false = ground arith in
      rw some_rounds
        (next_prime_loop-IsNextPrime (int_max - x) x (q - x) q (omega arith) (omega arith) prime)

int_max_prime : is_prime (int_max - 1) ≡ true
unfolding is_prime
int_max_prime = refl

-- The search never overflows: 2 ^ 31 - 1 is a prime, so every argument that is an `int` from 2 on
-- has a next prime that is one too, and `next_prime` returns the least.
pub next_prime_total :
    (x : ℕ) → 2 ≤ x → x < int_max → Returns (next_prime x) λ p. IsNextPrime x p × (p < int_max)
next_prime_total x two fits =
    let (p, run, (next, le)) =
      next_prime-IsNextPrime x (int_max - 1) (omega arith) (omega arith) int_max_prime two in
    (p, run, (next, omega arith))

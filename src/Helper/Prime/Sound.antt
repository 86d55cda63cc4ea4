-- ===== src/Helper/Prime/Sound.antt =====
-- `is_prime` decides primality.
use Prim.Native.Nat.{◌∣◌}
use native.Mathlib.Nat.{
  div-add-mod, dvd-mul_left, dvd_of_mod-eq-zero, mod-eq-zero_of_dvd, dvd_trans,
}
use hyperkv.Base.{
  ℕ, zero, suc, ◌+◌, ◌-◌, ◌*◌, ◌/◌, ◌%◌, ◌≤◌, ◌<◌, true, ◌≡◌, ◌≢◌, refl, arith, leb, ◌==◌,
  Bool-cases, ap, subst, inl, inr, ◌⊎◌, ◌↔◌,
}
use hyperkv.Helper.Prime.{no_odd_divisor, is_prime}

-- No number strictly between 1 and `n` divides `n`.
pub record IsPrime (n : ℕ) : Type 0 where
  pub at_least_two : 2 ≤ n
  pub no_divisor : (d : ℕ) → 2 ≤ d → d < n → n % d ≢ 0

le_square : (a : ℕ) → a ≤ a * a
le_square zero = omega arith
le_square (suc a) = grind arith

square_mono : (a b : ℕ) → a ≤ b → a * a ≤ b * b
square_mono a b h = grind arith

-- With enough rounds every `d` of the loop up to the root is tried.
no_odd_divisor_sound :
    (r x i d e : ℕ)
    → x < i + 2 * r
    → no_odd_divisor r x i ≡ true
    → d ≡ i + 2 * e
    → d * d ≤ x
    → x % d ≢ 0
unfolding no_odd_divisor
no_odd_divisor_sound zero x i d e fuel run at sq = absurd (omega (arith, le_square d))
no_odd_divisor_sound (suc r) x i d zero fuel run at sq =
    let same : d ≡ i = omega arith in rw same (ground (arith, square_mono i d))
no_odd_divisor_sound (suc r) x i d (suc e) fuel run at sq =
    ground (arith, square_mono i d, no_odd_divisor_sound r x (i + 2) d e)

no_odd_divisor_complete :
    (r x i : ℕ) → 3 ≤ i → ((d : ℕ) → 2 ≤ d → d < x → x % d ≢ 0) → no_odd_divisor r x i ≡ true
unfolding no_odd_divisor
no_odd_divisor_complete zero x i low p = refl
no_odd_divisor_complete (suc r) x i low p =
    let big : i * i ≤ x → i < x = λ h. grind arith in
    ground (arith, big, p i, no_odd_divisor_complete r x (i + 2) (omega arith) p)

-- A divisor up to the root of an odd number is odd, so the loop meets it.
no_small_divisor :
    (x d : ℕ) → x % 2 ≢ 0 → no_odd_divisor x x 3 ≡ true → 2 ≤ d → d * d ≤ x → x % d ≢ 0
no_small_divisor x d odd run low sq zero_mod = elim (Bool-cases (d % 2 == 0)) [
  | inl even ↦
      let two : 2 ∣ d = dvd_of_mod-eq-zero 2 (ground arith) in
      odd (mod-eq-zero_of_dvd 2 (dvd_trans 2 two (dvd_of_mod-eq-zero d zero_mod)))
  | inr odd_d ↦
      no_odd_divisor_sound x x 3 d ((d - 3) / 2) (omega arith) run (ground arith) sq zero_mod
]

-- A divisor and its cofactor: both lie strictly inside, and one of them is at most the root.
cofactor : (x d : ℕ) → 2 ≤ d → d < x → x % d ≡ 0 → (d * (x / d) ≡ x) × (2 ≤ x / d)
cofactor x d low high h =
    let whole : d * (x / d) ≡ x = omega (arith, div-add-mod x d) in
    let nonzero : x / d ≢ 0 = λ e. omega (arith, ap (λ (t : ℕ). d * t) e) in
    let not_one : x / d ≢ 1 = λ e. omega (arith, ap (λ (t : ℕ). d * t) e) in (whole, omega arith)

small_factor : (a b x : ℕ) → a * b ≡ x → (a * a ≤ x) ⊎ (b * b ≤ x)
small_factor a b x e = elim (Bool-cases (leb a b)) [
  | inl le ↦ inl (let h : a ≤ b = ground arith in grind arith)
  | inr gt ↦ inr (let h : b ≤ a = ground arith in grind arith)
]

odd_no_divisor :
    (x : ℕ) → x % 2 ≢ 0 → no_odd_divisor x x 3 ≡ true → (d : ℕ) → 2 ≤ d → d < x → x % d ≢ 0
odd_no_divisor x odd run d low high h =
    let (whole, big) = cofactor x d low high h in
    elim (small_factor d (x / d) x whole) [
      | inl sq ↦ no_small_divisor x d odd run low sq h
      | inr sq ↦
          no_small_divisor x (x / d) odd run big sq
            (mod-eq-zero_of_dvd (x / d) (subst (λ t. x / d ∣ t) whole (dvd-mul_left (x / d) d)))
    ]

is_prime_sound : (x : ℕ) → is_prime x ≡ true → IsPrime x
unfolding is_prime
is_prime_sound x run = elim (Bool-cases (x == 2)) [
  | inl two ↦ record {
    at_least_two = ground arith;
    no_divisor = λ d low high. absurd (let e : x ≡ 2 = ground arith in omega arith);
  }
  | inr other ↦ record {
    at_least_two = ground arith;
    no_divisor = odd_no_divisor x (ground arith) (ground arith);
  }
]

is_prime_complete : (x : ℕ) → IsPrime x → is_prime x ≡ true
unfolding is_prime
is_prime_complete x p = ground (
  arith,
  p.at_least_two,
  p.no_divisor 2,
  no_odd_divisor_complete x x 3 (omega arith) p.no_divisor,
)

-- `is_prime` accepts exactly the prime numbers.
pub is_prime_iff : (x : ℕ) → (is_prime x ≡ true) ↔ IsPrime x
is_prime_iff x = (is_prime_sound x, is_prime_complete x)

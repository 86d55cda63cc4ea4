-- ===== src/Helper/Hash/Cover.antt =====
-- Which slots the attempts of `hash_func` reach.
use native.Mathlib.Nat.{div-add-mod, add-mul-mod_self_left, mod-eq_of_lt}
use hyperkv.Base.{
  ℕ, zero, suc, ◌+◌, ◌-◌, ◌*◌, ◌/◌, ◌%◌, ◌<◌, ◌≡◌, ◌≢◌, sym, ◌∙◌, ap, arith, Str, ◌==◌, Bool-cases,
  inl, inr,
}
use hyperkv.Helper.Hash.{djb2, sdbm, djb2-lt, sdbm-lt, probe}
use hyperkv.Helper.Prime.Sound.{IsPrime}

descent : (v m q p r n : ℕ) → m + q ≡ p → suc n * q + r ≡ p → v * m * suc n ≡ v * r + p * (v * n)
descent v m q p r n e f = omega (arith, ap (λ (t : ℕ). v * t * suc n) e, ap (λ (t : ℕ). v * t) f)

-- Every step is invertible modulo a prime, by Euclid's descent from `s` to `p % s`.
inverse : (k p s : ℕ) → IsPrime p → 0 < s → s < p → s < k → (u : ℕ) × (u * s % p ≡ 1)
inverse zero p s prime pos low fuel = absurd (omega arith)
inverse (suc k) p zero prime pos low fuel = absurd (omega arith)
inverse (suc k) p (suc n) prime pos low fuel = elim (Bool-cases (n == 0)) [
  | inl one ↦ let e : n ≡ 0 = ground arith in (1, rw e (mod-eq_of_lt {n = 1} prime.at_least_two))
  | inr more ↦
      let r = p % suc n in
      let left : r ≢ 0 = prime.no_divisor (suc n) (ground arith) low in
      let less : r < suc n = omega arith in
      let (v, e) = inverse k p r prime (omega arith) (omega arith) (omega arith) in
      (
        v * (p - p / suc n),
        rw
            (descent v (p - p / suc n) (p / suc n) p r n (omega arith)
              (omega (arith, div-add-mod p (suc n))))
            (add-mul-mod_self_left (v * r) p (v * n) ∙ e),
      )
]

around :
    (p s u w c e i h t : ℕ)
    → u * s ≡ p * e + 1
    → u * w ≡ p * c + i
    → h + w ≡ t + p
    → h + i * s + p * (c * s) ≡ t + p * (1 + e * w)
around p s u w c e i h t inv quot target =
    omega (arith, ap (λ (x : ℕ). x * w) inv, ap (λ (x : ℕ). x * s) quot)

-- An arithmetic progression with a step that is not 0 meets every residue of a prime.
progression_hits :
    (p s h t : ℕ)
    → IsPrime p
    → 0 < s
    → s < p
    → h < p
    → t < p
    → (i : ℕ) × (i < p) × ((h + i * s) % p ≡ t)
progression_hits p s h t prime pos low home target =
    let (u, inv) = inverse p p s prime pos low low in
    let w = t + p - h in
    let i = u * w % p in
    let c = u * w / p in
    let sum =
      around p s u w c (u * s / p) i h t (omega (arith, div-add-mod (u * s) p))
        (omega (arith, div-add-mod (u * w) p)) (omega arith) in
    (
      i,
      omega arith,
      sym (add-mul-mod_self_left (h + i * s) p (c * s))
          ∙ ap (λ x. x % p) sum
          ∙ add-mul-mod_self_left t p (1 + u * s / p * w)
          ∙ mod-eq_of_lt target,
    )

-- In a table of prime size a key whose `sdbm` value is not 0 reaches every slot within `size`
-- attempts.
pub probe_hits :
    (key : Str) (size t : ℕ)
    → IsPrime size
    → sdbm key size ≢ 0
    → t < size
    → (i : ℕ) × (i < size) × (probe key size i ≡ t)
unfolding probe
probe_hits key size t prime moves target =
    progression_hits size (sdbm key size) (djb2 key size) t prime (omega arith)
      (sdbm-lt key size (omega arith)) (djb2-lt key size (omega arith)) target

-- A key whose `sdbm` value is 0 looks at its home slot again and again.
pub probe_stuck : (key : Str) (size i : ℕ) → sdbm key size ≡ 0 → probe key size i ≡ probe key size 0
unfolding probe
probe_stuck key size i e =
    let still : i * sdbm key size ≡ 0 * sdbm key size = omega (arith, ap (λ (t : ℕ). i * t) e) in
    ap (λ x. (djb2 key size + x) % size) still

-- ===== src/Tests/Texts.antt =====
-- Hashes, primes and decimal numbers.
use hyperkv.Base.{◌<◌, true, ◌≡◌, ◌≢◌, refl, arith, ok, Returns, codes, ◌↔◌, int_max, negsuc}
use hyperkv.Helper.Hash.{sdbm}
use hyperkv.Helper.Number.{is_number, strtoi, print_int, intostr}
use hyperkv.Helper.Number.Print.{strtoi-intostr}
use hyperkv.Helper.Prime.{is_prime, next_prime}
use hyperkv.Helper.Prime.Next.{IsNextPrime, next_prime_total}
use hyperkv.Helper.Prime.Sound.{IsPrime, is_prime_iff}

next_prime_total_example : Returns (next_prime 14) λ p. IsNextPrime 14 p × (p < int_max)
next_prime_total_example = next_prime_total 14 (omega arith) (omega arith)

is_prime_iff_example : (is_prime 91 ≡ true) ↔ IsPrime 91
is_prime_iff_example = is_prime_iff 91

eleven : is_prime 11 ≡ true
unfolding is_prime
eleven = refl

date_moves : sdbm (codes "date") 11 ≢ 0
unfolding sdbm
date_moves z = omega (arith, z)

strtoi-intostr_example :
    Returns (intostr (negsuc 41)) λ s. (is_number s ≡ true) × (strtoi s ≡ ok (negsuc 41))
strtoi-intostr_example = strtoi-intostr (negsuc 41) (omega arith) (omega arith)

minus_42 : print_int (negsuc 41) ≡ codes "-42"
unfolding print_int
minus_42 = refl

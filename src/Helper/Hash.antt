-- ===== src/Helper/Hash.antt =====
-- The hash functions of src/helper.c.
pub mod Cover
use hyperkv.Base.{
  ℕ, zero, suc, ◌+◌, ◌-◌, ◌*◌, ◌%◌, ◌^◌, ◌≤◌, ◌<◌, List, [], ◌∷◌, ◌≡◌, refl, arith, Run, ok, ◌>>=◌,
  int, int-ok, int_max, Str, ltb, ◌==◌, if◌then◌else◌,
}

abbrev pub word : ℕ
word = 2 ^ 64

-- `c = *str++` as it is added to an `unsigned long`: `char` is signed, so bytes from 128 on are
-- extended by ones.
char_value : ℕ → ℕ
char_value c = if ltb c 128 then c else c + word - 256

djb2_loop : ℕ → Str → ℕ
unfolding char_value
djb2_loop hash [] = hash
djb2_loop hash (c ∷ str) = djb2_loop ((hash * 2 ^ 5 + hash + char_value c) % word) str

unfoldable pub djb2 : Str → ℕ → ℕ
unfolding djb2_loop
djb2 str size = djb2_loop 5381 str % size

sdbm_loop : ℕ → Str → ℕ
unfolding char_value
sdbm_loop hash [] = hash
sdbm_loop hash (c ∷ str) =
    sdbm_loop ((char_value c + hash * 2 ^ 6 + hash * 2 ^ 16 + word - hash) % word) str

unfoldable pub sdbm : Str → ℕ → ℕ
unfolding sdbm_loop
sdbm str size = sdbm_loop 0 str % size

unfoldable pub hash_func : Str → ℕ → ℕ → Run ℕ
hash_func key size i = do
  let hash = djb2 key size
  res ← if i == 0 then ok hash else (do step ← int (i * sdbm key size); int (hash + step))
  ok (res % size)

-- The slot that attempt `i` looks at, without the bounds of `int`.
unfoldable pub probe : Str → ℕ → ℕ → ℕ
probe key size i = (djb2 key size + i * sdbm key size) % size

-- Up to this many slots no attempt overflows.
abbrev pub max_size : ℕ
max_size = 46341

pub probe-lt : (key : Str) (size i : ℕ) → 0 < size → probe key size i < size
unfolding probe
probe-lt key size i h = omega arith

pub sdbm-lt : (key : Str) (size : ℕ) → 0 < size → sdbm key size < size
unfolding sdbm
sdbm-lt key size h = omega arith

pub djb2-lt : (key : Str) (size : ℕ) → 0 < size → djb2 key size < size
unfolding djb2
djb2-lt key size h = omega arith

step_bound : (i s size : ℕ) → i < size → s < size → size ≤ max_size → i * s ≤ 46340 * 46340
step_bound i s size h k small = grind arith

-- In a table of at most `max_size` slots the hash of every attempt below the size is free of
-- overflow, and is the probe.
pub hash_func-probe :
    (key : Str) (size i : ℕ)
    → i < size
    → size ≤ max_size
    → hash_func key size i ≡ ok (probe key size i)
unfolding hash_func probe int
hash_func-probe key size i h small =
    ground (arith, djb2-lt key size, sdbm-lt key size, step_bound i (sdbm key size) size)

-- ===== src/Slots/Count.antt =====
-- How many slots hold an entry.
use hyperkv.Base.{
  ℕ, zero, suc, ◌+◌, ◌≤◌, ◌<◌, List, [], ◌∷◌, ◌≡◌, refl, arith, length, set, replicate,
}
use hyperkv.Slots.{Slot, empty, deleted, item, slot_at, live}

module _ {ℓ} {V : Type ℓ} where
  abbrev pub weight : Slot V → ℕ
  weight empty = 0
  weight deleted = 0
  weight (item k v) = 1

  pub live-cons : (s : Slot V) (items : List (Slot V)) → live (s ∷ items) ≡ weight s + live items
  unfolding live
  live-cons empty items = omega arith
  live-cons deleted items = omega arith
  live-cons (item k v) items = omega arith

  pub live-set :
      (items : List (Slot V)) (p : ℕ) (s : Slot V)
      → p < length items
      → live (set items p s) + weight (slot_at items p) ≡ live items + weight s
  live-set [] p s h = absurd (omega arith)
  live-set (x ∷ items) zero s h = omega (arith, live-cons x items, live-cons s items)
  live-set (x ∷ items) (suc p) s h =
      omega
        (arith, live-set items p s (omega arith), live-cons x items, live-cons x (set items p s))

  pub live-le-length : (items : List (Slot V)) → live items ≤ length items
  unfolding live
  live-le-length [] = omega arith
  live-le-length (empty ∷ items) = omega (arith, live-le-length items)
  live-le-length (deleted ∷ items) = omega (arith, live-le-length items)
  live-le-length (item k v ∷ items) = omega (arith, live-le-length items)

  -- Not all slots hold an entry, so some slot is free.
  pub free_exists :
      (items : List (Slot V))
      → live items < length items
      → (p : ℕ) × (p < length items) × (weight (slot_at items p) ≡ 0)
  unfolding live
  free_exists [] h = absurd (omega arith)
  free_exists (empty ∷ items) h = (0, omega arith, refl)
  free_exists (deleted ∷ items) h = (0, omega arith, refl)
  free_exists (item k v ∷ items) h =
      let (p, low, free) = free_exists items (omega arith) in (suc p, omega arith, free)

pub live-replicate {ℓ} : (V : Type ℓ) (n : ℕ) → live {V = V} (replicate n empty) ≡ 0
unfolding live
live-replicate V zero = refl
live-replicate V (suc n) = live-replicate V n

-- ===== src/Slots/Path.antt =====
-- The path that the attempts of `hash_func` take through an array of slots.
use hyperkv.Base.{
  ℕ, ◌<◌, List, ◌≡◌, ◌≢◌, sym, ◌∙◌, arith, Str, length, set, replicate, ok, at, at-get_or,
  get_or-set_self, get_or-set_ne, get_or-replicate, get_or_beyond, length-set, length-replicate,
  ◌==◌, Bool-cases, inl, inr, ltb, ◌⊎◌,
}
use hyperkv.Helper.Hash.{probe, probe-lt}
use hyperkv.Helper.Prime.Sound.{IsPrime}
use hyperkv.Slots.{Slot, empty, item, slot_at}
use hyperkv.Slots.View.{Holds, Lacks, Unique}

-- Some attempt for `key` lands in slot `p`, and the slots before it on the path satisfy `P`.
pub record Reach {ℓ κ} {V : Type ℓ} (P : Slot V → Type κ) (items : List (Slot V)) (size : ℕ)
    (key : Str) (p : ℕ) : Type (ℓ ⊔ κ) where
  pub attempt : ℕ
  pub early : attempt < size
  pub lands : probe key size attempt ≡ p
  pub before : (j : ℕ) → j < attempt → P (slot_at items (probe key size j))

module _ {ℓ} {V : Type ℓ} where
  abbrev pub NonEmpty : Slot V → Type ℓ
  NonEmpty s = s ≢ empty

  -- What search relies on: the array has its length, the size is prime, every key is held once at
  -- most, and where its path has not met an empty slot before.
  pub record IsArranged (size : ℕ) (items : List (Slot V)) : Type ℓ where
    pub width : length items ≡ size
    pub prime : IsPrime size
    pub unique : Unique items
    pub placed : (p : ℕ) (key : Str) (v : V) → Holds items p key v → Reach NonEmpty items size key p

  pub in_bounds :
      (items : List (Slot V)) (p : ℕ) (key : Str) (v : V) → Holds items p key v → p < length items
  in_bounds items p key v h = elim (Bool-cases (ltb p (length items))) [
    | inl low ↦ ground arith
    | inr high ↦ cc (get_or_beyond items p empty (ground arith))
  ]

  pub set_cases :
      (items : List (Slot V)) (p : ℕ) (s : Slot V) (q : ℕ)
      → p < length items
      → ((q ≡ p) × (slot_at (set items p s) q ≡ s))
        ⊎ ((q ≢ p) × (slot_at (set items p s) q ≡ slot_at items q))
  set_cases items p s q h = elim (Bool-cases (q == p)) [
    | inl e ↦ let same : q ≡ p = ground arith in inl (same, rw same (get_or-set_self items p s _ h))
    | inr ne ↦
        let other : q ≢ p = ground arith in
        inr (other, get_or-set_ne items p q s _ (λ e. other (sym e)))
  ]

pub replicate-Lacks {ℓ} :
    {V : Type ℓ} (size : ℕ) (key : Str) → Lacks {V = V} (replicate size empty) key
replicate-Lacks {V} size key p v h = cc (get_or-replicate {A = Slot V} size p empty)

pub replicate-IsArranged {ℓ} :
    {V : Type ℓ} (size : ℕ) → IsPrime size → IsArranged {V = V} size (replicate size empty)
replicate-IsArranged size prime = record {
  width = length-replicate size empty;
  prime = prime;
  unique = λ p q key v w h. absurd (replicate-Lacks size key p v h);
  placed = λ p key v h. absurd (replicate-Lacks size key p v h);
}

module _ {ℓ} {V : Type ℓ} {size : ℕ} {items : List (Slot V)} (arranged : IsArranged size items)
    (p : ℕ) (s : Slot V) (low : p < size) (full : NonEmpty s) where
  still_full : (q : ℕ) → NonEmpty (slot_at items q) → NonEmpty (slot_at (set items p s) q)
  still_full q h = elim (set_cases items p s q (rw arranged.width low)) [
    | inl (_, e) ↦ rw e full
    | inr (_, e) ↦ rw e h
  ]

  pub Reach-set :
      {key : Str} {q : ℕ}
      → Reach NonEmpty items size key q
      → Reach NonEmpty (set items p s) size key q
  Reach-set reach = record {
    attempt = reach.attempt;
    early = reach.early;
    lands = reach.lands;
    before = λ j h. still_full _ (reach.before j h);
  }

  -- A write that leaves no slot empty, of a key that reaches the slot and stands nowhere else.
  pub set-IsArranged :
      ((key : Str) (v : V) → s ≡ item key v → Reach NonEmpty items size key p)
      → ((key : Str) (v w : V) (q : ℕ) → s ≡ item key v → q ≢ p → slot_at items q ≢ item key w)
      → IsArranged size (set items p s)
  set-IsArranged reach alone = record {
    width = length-set items p s ∙ arranged.width;
    prime = arranged.prime;
    unique = λ a b key v w h h'. elim (set_cases items p s a (rw arranged.width low)) [
      | inl (a_p, e) ↦ elim (set_cases items p s b (rw arranged.width low)) [
        | inl (b_p, _) ↦ a_p ∙ sym b_p
        | inr (b_p, f) ↦ absurd (alone key v w b (sym e ∙ h) b_p (sym f ∙ h'))
      ]
      | inr (a_p, e) ↦ elim (set_cases items p s b (rw arranged.width low)) [
        | inl (b_p, f) ↦ absurd (alone key w v a (sym f ∙ h') a_p (sym e ∙ h))
        | inr (b_p, f) ↦ arranged.unique a b key v w (sym e ∙ h) (sym f ∙ h')
      ]
    ];
    placed = λ a key v h. elim (set_cases items p s a (rw arranged.width low)) [
      | inl (a_p, e) ↦ rw a_p (Reach-set (reach key v (sym e ∙ h)))
      | inr (a_p, e) ↦ Reach-set (arranged.placed a key v (sym e ∙ h))
    ];
  }

module _ {ℓ} {V : Type ℓ} {size : ℕ} {items : List (Slot V)}
    (arranged : IsArranged size items) where
  -- The slot that an attempt reads is in bounds.
  pub at-probe :
      (key : Str) (i : ℕ) → at items (probe key size i) ≡ ok (slot_at items (probe key size i))
  at-probe key i =
      at-get_or items (probe key size i) empty
        (rw arranged.width (probe-lt key size i (omega (arith, arranged.prime.at_least_two))))

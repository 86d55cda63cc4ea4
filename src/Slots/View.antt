-- ===== src/Slots/View.antt =====
-- The map that an array of slots stands for: what a scan of the slots finds under a key.
use hyperkv.Base.{
  ℕ, zero, suc, List, [], ◌∷◌, Option, none, some, ◌≡◌, ◌≢◌, ap, arith, Str, str_eq, str_eq_refl,
  eq_of_str_eq, if◌then◌else◌, Option-cases, Bool-cases, inl, inr,
}
use hyperkv.Slots.{Slot, empty, deleted, item, slot_at}

module _ {ℓ} {V : Type ℓ} where
  unfoldable pub view : List (Slot V) → Str → Option V
  view [] key = none
  view (empty ∷ items) key = view items key
  view (deleted ∷ items) key = view items key
  view (item k v ∷ items) key = if str_eq k key then some v else view items key

  -- The slot `p` holds `key`, with the value `v`.
  abbrev pub Holds : List (Slot V) → ℕ → Str → V → Type ℓ
  Holds items p key v = slot_at items p ≡ item key v

  -- No slot holds `key`.
  abbrev pub Lacks : List (Slot V) → Str → Type ℓ
  Lacks items key = (p : ℕ) (v : V) → slot_at items p ≢ item key v

  -- A key is held by one slot at most.
  abbrev pub Unique : List (Slot V) → Type ℓ
  Unique items = (p q : ℕ) (key : Str) (v w : V) → Holds items p key v → Holds items q key w → p ≡ q

  view-some :
      (items : List (Slot V)) (key : Str) (v : V)
      → view items key ≡ some v
      → (p : ℕ) × Holds items p key v
  unfolding view
  view-some [] key v h = cc
  view-some (empty ∷ items) key v h = let (p, e) = view-some items key v h in (suc p, e)
  view-some (deleted ∷ items) key v h = let (p, e) = view-some items key v h in (suc p, e)
  view-some (item k w ∷ items) key v h = elim (Bool-cases (str_eq k key)) [
    | inl same ↦ (0, ground (arith, eq_of_str_eq k key))
    | inr other ↦ let (p, e) = view-some items key v (ground arith) in (suc p, e)
  ]

  view-none : (items : List (Slot V)) (key : Str) → view items key ≡ none → Lacks items key
  unfolding view
  view-none [] key h p v e = cc
  view-none (empty ∷ items) key h zero v e = cc
  view-none (empty ∷ items) key h (suc p) v e = view-none items key h p v e
  view-none (deleted ∷ items) key h zero v e = cc
  view-none (deleted ∷ items) key h (suc p) v e = view-none items key h p v e
  view-none (item k w ∷ items) key h zero v e = ground (arith, str_eq_refl k)
  view-none (item k w ∷ items) key h (suc p) v e = view-none items key (ground arith) p v e

  pub view-Lacks : (items : List (Slot V)) (key : Str) → Lacks items key → view items key ≡ none
  view-Lacks items key lacks = elim (Option-cases (view items key)) [
    | inl e ↦ e
    | inr (v, e) ↦ let (p, h) = view-some items key v e in absurd (lacks p v h)
  ]

  pub view-Holds :
      (items : List (Slot V)) (p : ℕ) (key : Str) (v : V)
      → Unique items
      → Holds items p key v
      → view items key ≡ some v
  view-Holds items p key v unique h = elim (Option-cases (view items key)) [
    | inl e ↦ absurd (view-none items key e p v h)
    | inr (w, e) ↦
        let (q, h') = view-some items key w e in
        let same : p ≡ q = unique p q key v w h h' in rw e (cc (ap (slot_at items) same))
  ]

  pub Lacks-view : (items : List (Slot V)) (key : Str) → view items key ≡ none → Lacks items key
  Lacks-view = view-none

  pub Holds-view :
      (items : List (Slot V)) (key : Str) (v : V)
      → view items key ≡ some v
      → (p : ℕ) × Holds items p key v
  Holds-view = view-some

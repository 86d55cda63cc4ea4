-- ===== src/Slots.antt =====
-- The slots of the open-addressing arrays of src/htable.c and src/set.c.
pub mod Count
pub mod View
pub mod Path
pub mod Write
use hyperkv.Base.{ℕ, ◌+◌, ◌≡◌, refl, ◌⊎◌, inl, inr, Str, List, [], ◌∷◌, get_or}

-- NULL, the tombstone `&HT_DELETED` (or `&SET_DELETED`), or an entry. A `HashTableItem` holds its
-- key, and its `type` and `value` together; a member of a set is an entry with no value.
pub data Slot {ℓ} (V : Type ℓ) : Type ℓ where
  empty : Slot V
  deleted : Slot V
  item : Str → V → Slot V

module _ {ℓ} {V : Type ℓ} where
  abbrev pub slot_at : List (Slot V) → ℕ → Slot V
  slot_at items p = get_or items p empty

  -- How many slots hold an entry.
  unfoldable pub live : List (Slot V) → ℕ
  live [] = 0
  live (empty ∷ items) = live items
  live (deleted ∷ items) = live items
  live (item k v ∷ items) = 1 + live items

  abbrev pub IsItem : Slot V → Type ℓ
  IsItem s = (key : Str) × (v : V) × (s ≡ item key v)

  pub Slot-cases : (s : Slot V) → (s ≡ empty) ⊎ ((s ≡ deleted) ⊎ IsItem s)
  Slot-cases empty = inl refl
  Slot-cases deleted = inr (inl refl)
  Slot-cases (item key v) = inr (inr (key, v, refl))

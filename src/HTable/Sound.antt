-- ===== src/HTable/Sound.antt =====
-- What keeps the table's loops inside the array, whatever the keys: the array has its length and is
-- not empty, and `used` counts at least the entries, whose values satisfy `P`.
use hyperkv.Base.{
  ℕ, zero, suc, ◌+◌, ◌-◌, ◌*◌, ◌%◌, ◌≤◌, ◌<◌, true, false, List, [], ◌∷◌, Option, none, some, ◌≡◌,
  refl, subst, ◌∙◌, arith, ok, at, at-get_or, Str, str_eq, ◌==◌, set, length, length-set, inl, inr,
  Safe, Safe-bind, Safe-option, Safe-map, Safe-if, int-Safe,
}
use hyperkv.Helper.Hash.{hash_func, djb2, sdbm}
use hyperkv.HTable.{HashTable, locate_loop, free_loop, htable_search, htable_exists, write_value}
use hyperkv.Slots.{Slot, empty, deleted, item, slot_at, live, Slot-cases}
use hyperkv.Slots.Count.{weight, live-set}

module _ {V : Type 0} (P : V → Type 0) where
  abbrev pub Kept : Slot V → Type 0
  Kept (item k v) = P v
  Kept _ = Unit

  abbrev pub AllKept : List (Slot V) → Type 0
  AllKept [] = Unit
  AllKept (s ∷ items) = Kept s × AllKept items

  pub record IsSound (ht : HashTable V) : Type 0 where
    pub width : length ht.items ≡ ht.size
    pub positive : 0 < ht.size
    pub counted : live ht.items ≤ ht.used
    pub kept : AllKept ht.items

  pub Kept-slot_at : (items : List (Slot V)) (p : ℕ) → AllKept items → Kept (slot_at items p)
  Kept-slot_at [] p kept = tt
  Kept-slot_at (s ∷ items) zero kept = kept.0
  Kept-slot_at (s ∷ items) (suc p) kept = Kept-slot_at items p kept.1

  pub AllKept-set :
      (items : List (Slot V)) (p : ℕ) (s : Slot V)
      → AllKept items
      → Kept s
      → AllKept (set items p s)
  AllKept-set [] p s kept here = tt
  AllKept-set (x ∷ items) zero s kept here = (here, kept.1)
  AllKept-set (x ∷ items) (suc p) s kept here = (kept.0, AllKept-set items p s kept.1 here)

  -- What a search finds: a slot of the array that holds the value.
  abbrev pub Found : HashTable V → Option (ℕ × V) → Type 0
  Found ht none = Unit
  Found ht (some (p, v)) = (p < length ht.items) × (weight (slot_at ht.items p) ≡ 1) × P v

  abbrev pub Gap : HashTable V → Option ℕ → Type 0
  Gap ht none = Unit
  Gap ht (some p) = (p < length ht.items) × (weight (slot_at ht.items p) ≡ 0)

pub hash_func-Safe :
    (key : Str) (size i : ℕ) → 0 < size → Safe (λ h. h < size) (hash_func key size i)
unfolding hash_func
hash_func-Safe key size i positive =
    Safe-bind _
      (Safe-if {P = λ res. Unit} _ _ (i == 0) (λ _. Safe.returns _ tt)
        (λ _.
          Safe-bind _ (int-Safe (i * sdbm key size))
            λ step _. Safe-map (int-Safe (djb2 key size + step)) λ _ _. tt))
      λ res _. Safe.returns (res % size) (omega arith)

module _ {V : Type 0} {P : V → Type 0} {ht : HashTable V} (sound : IsSound P ht) (key : Str) where
  pub read : (h : ℕ) → h < ht.size → at ht.items h ≡ ok (slot_at ht.items h)
  read h low = at-get_or ht.items h empty (rw sound.width low)

  pub locate_loop-Safe : (r i : ℕ) → Safe (Found P ht) (locate_loop r i ht key)
  unfolding locate_loop
  locate_loop-Safe zero i = Safe.returns none tt
  locate_loop-Safe (suc r) i =
      let rest = locate_loop-Safe r (i + 1) in
      Safe-bind _ (hash_func-Safe key ht.size i sound.positive) λ h low.
        rw (read h low) (elim (Slot-cases (slot_at ht.items h)) [
          | inl e ↦ rw e (Safe.returns none tt)
          | inr (inl e) ↦ rw e rest
          | inr (inr (k, v, e)) ↦
              let held : P v = subst (Kept P) e (Kept-slot_at P ht.items h sound.kept) in
              rw e (
                Safe-if _ _ (str_eq k key)
                  (λ _. Safe.returns (some (h, v)) (rw sound.width low, rw e refl, held))
                  (λ _. rest))
        ])

  pub free_loop-Safe : (r i : ℕ) → Safe (Gap P ht) (free_loop r i ht key)
  unfolding free_loop
  free_loop-Safe zero i = Safe.returns none tt
  free_loop-Safe (suc r) i =
      let rest = free_loop-Safe r (i + 1) in
      Safe-bind _ (hash_func-Safe key ht.size i sound.positive) λ h low.
        rw (read h low) (elim (Slot-cases (slot_at ht.items h)) [
          | inl e ↦ rw e (Safe.returns (some h) (rw sound.width low, rw e refl))
          | inr (inl e) ↦ rw e (Safe.returns (some h) (rw sound.width low, rw e refl))
          | inr (inr (k, v, e)) ↦ rw e rest
        ])

  pub search-Safe : Safe (Found P ht) (htable_search ht key)
  unfolding htable_search
  search-Safe = locate_loop-Safe ht.size 0

  pub exists-Safe : Safe (λ _. Unit) (htable_exists ht key)
  unfolding htable_exists
  exists-Safe =
      Safe-bind _ search-Safe
        (Safe-option _ _ _ (λ _. Safe.returns false tt) (λ x _. Safe.returns true tt))

  -- A write over an entry.
  pub write_value-IsSound :
      (p : ℕ) (v v' : V) → Found P ht (some (p, v)) → P v' → IsSound P (write_value ht key p v')
  unfolding write_value
  write_value-IsSound p v v' (low, entry, held) kept = record {
    width = length-set ht.items p (item key v') ∙ sound.width;
    positive = sound.positive;
    counted = omega (arith, sound.counted, live-set ht.items p (item key v') low);
    kept = AllKept-set P ht.items p (item key v') sound.kept kept;
  }

  -- A new entry, and one that becomes a tombstone.
  pub placed-IsSound :
      (p : ℕ) (v : V)
      → Gap P ht (some p)
      → P v
      → IsSound P (record ht { used = ht.used + 1; items = set ht.items p (item key v) })
  placed-IsSound p v (low, gap) kept = record {
    width = length-set ht.items p (item key v) ∙ sound.width;
    positive = sound.positive;
    counted = omega (arith, sound.counted, live-set ht.items p (item key v) low);
    kept = AllKept-set P ht.items p (item key v) sound.kept kept;
  }

  pub buried-IsSound :
      (p : ℕ) (v : V)
      → Found P ht (some (p, v))
      → IsSound P (record ht { used = ht.used - 1; items = set ht.items p deleted })
  buried-IsSound p v (low, entry, held) = record {
    width = length-set ht.items p deleted ∙ sound.width;
    positive = sound.positive;
    counted = omega (arith, sound.counted, live-set ht.items p deleted low);
    kept = AllKept-set P ht.items p deleted sound.kept tt;
  }

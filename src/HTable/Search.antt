-- ===== src/HTable/Search.antt =====
-- The probing loops of the table.
use hyperkv.Base.{
  ℕ, zero, suc, ◌+◌, ◌≤◌, ◌<◌, List, Option, none, some, ◌≡◌, ◌≢◌, refl, ◌∙◌, ap, arith, Str,
  str_eq, str_eq_refl, eq_of_str_eq, ok, Returns, Bool-cases, inl, inr, ◌⊎◌, ◌==◌, ltb,
}
use hyperkv.Helper.Hash.{probe, max_size, hash_func-probe, sdbm}
use hyperkv.Helper.Hash.Cover.{probe_hits}
use hyperkv.HTable.{HashTable, locate_loop, free_loop, htable_search}
use hyperkv.Slots.{Slot, empty, item, slot_at, live, Slot-cases, IsItem}
use hyperkv.Slots.Count.{weight, free_exists}
use hyperkv.Slots.Path.{Reach, NonEmpty, IsArranged, at-probe}
use hyperkv.Slots.View.{Holds, Lacks}

-- What a search returns: the slot that holds the key, or nothing and no slot holds it.
abbrev pub Located {ℓ} : {V : Type ℓ} → List (Slot V) → Str → Option (ℕ × V) → Type ℓ
Located items key none = Lacks items key
Located items key (some (p, v)) = Holds items p key v

module _ {ℓ} {V : Type ℓ} (ht : HashTable V) (arranged : IsArranged ht.size ht.items)
    (small : ht.size ≤ max_size) (key : Str) where
  -- The slots that the attempts before `i` have looked at.
  abbrev Passed : ℕ → Type ℓ
  Passed i =
      (j : ℕ)
      → j < i
      → NonEmpty (slot_at ht.items (probe key ht.size j))
        × ((v : V) → slot_at ht.items (probe key ht.size j) ≢ item key v)

  Passed-suc :
      {i : ℕ}
      → Passed i
      → NonEmpty (slot_at ht.items (probe key ht.size i))
      → ((v : V) → slot_at ht.items (probe key ht.size i) ≢ item key v)
      → Passed (i + 1)
  Passed-suc {i} passed full other j h = elim (Bool-cases (j == i)) [
    | inl e ↦ let same : j ≡ i = ground arith in rw same (full, other)
    | inr ne ↦ passed j (ground arith)
  ]

  -- Where the path ends, at an empty slot or after `size` attempts, the key is not held.
  Passed-Lacks :
      (i : ℕ)
      → Passed i
      → (i ≡ ht.size) ⊎ (slot_at ht.items (probe key ht.size i) ≡ empty)
      → Lacks ht.items key
  Passed-Lacks i passed end p v h =
      let r = arranged.placed p key v h in
      let met : slot_at ht.items (probe key ht.size r.attempt) ≡ item key v = rw r.lands h in
      elim (Bool-cases (ltb r.attempt i)) [
        | inl lt ↦ (passed r.attempt (ground arith)).1 v met
        | inr ge ↦ elim end [
          | inl e ↦ absurd (let early = r.early in ground arith)
          | inr e ↦ elim (Bool-cases (r.attempt == i)) [
            | inl eq ↦
                let same : r.attempt ≡ i = ground arith in
                cc (ap (λ (j : ℕ). slot_at ht.items (probe key ht.size j)) same)
            | inr ne ↦ r.before i (ground arith) e
          ]
        ]
      ]

  locate_loop-Located :
      (r i : ℕ)
      → i + r ≡ ht.size
      → Passed i
      → Returns (locate_loop r i ht key) (Located ht.items key)
  unfolding locate_loop
  locate_loop-Located zero i sum passed = (none, refl, Passed-Lacks i passed (inl (omega arith)))
  locate_loop-Located (suc r) i sum passed =
      rw (hash_func-probe key ht.size i (omega arith) small, at-probe arranged key i)
        (elim (Slot-cases (slot_at ht.items (probe key ht.size i))) [
          | inl e ↦ rw e (none, refl, Passed-Lacks i passed (inr e))
          | inr (inl e) ↦ rw e (
              locate_loop-Located r (i + 1) (omega arith) (Passed-suc passed (λ z. cc) (λ v z. cc)))
          | inr (inr (k, v, e)) ↦ rw e (elim (Bool-cases (str_eq k key)) [
            | inl same ↦ rw same (
              some (probe key ht.size i, v),
              refl,
              e ∙ ap (λ t. item t v) (eq_of_str_eq k key same),
            )
            | inr other ↦ rw other (
                locate_loop-Located r (i + 1) (omega arith)
                  (Passed-suc passed (λ z. cc) (λ w z. ground (arith, str_eq_refl k))))
          ])
        ])

  -- `htable_search` neither overflows nor leaves the array, and finds the key wherever it is held.
  pub htable_search-Located : Returns (htable_search ht key) (Located ht.items key)
  unfolding htable_search
  htable_search-Located = locate_loop-Located ht.size 0 (omega arith) (λ j h. absurd (omega arith))

  -- The slot that `htable_insert` takes: free, and the first of its kind on the key's path.
  abbrev pub Free : Option ℕ → Type ℓ
  Free none = (j : ℕ) → j < ht.size → IsItem (slot_at ht.items (probe key ht.size j))
  Free (some p) = (weight (slot_at ht.items p) ≡ 0) × Reach NonEmpty ht.items ht.size key p

  abbrev Full : ℕ → Type ℓ
  Full i = (j : ℕ) → j < i → IsItem (slot_at ht.items (probe key ht.size j))

  Full-suc : {i : ℕ} → Full i → IsItem (slot_at ht.items (probe key ht.size i)) → Full (i + 1)
  Full-suc {i} full here j h = elim (Bool-cases (j == i)) [
    | inl e ↦ let same : j ≡ i = ground arith in rw same here
    | inr ne ↦ full j (ground arith)
  ]

  Full-Reach :
      (i : ℕ) → i < ht.size → Full i → Reach NonEmpty ht.items ht.size key (probe key ht.size i)
  Full-Reach i h full = record {
    attempt = i;
    early = h;
    lands = refl;
    before = λ j lt e. (let (k, v, e') = full j lt in cc);
  }

  free_loop-Free : (r i : ℕ) → i + r ≡ ht.size → Full i → Returns (free_loop r i ht key) Free
  unfolding free_loop
  free_loop-Free zero i sum full = (none, refl, λ j h. full j (omega arith))
  free_loop-Free (suc r) i sum full =
      rw (hash_func-probe key ht.size i (omega arith) small, at-probe arranged key i)
        (elim (Slot-cases (slot_at ht.items (probe key ht.size i))) [
          | inl e ↦ rw e (some (probe key ht.size i), refl, (rw e, Full-Reach i (omega arith) full))
          | inr (inl e) ↦
              rw e (some (probe key ht.size i), refl, (rw e, Full-Reach i (omega arith) full))
          | inr (inr (k, v, e)) ↦
              rw e (free_loop-Free r (i + 1) (omega arith) (Full-suc full (k, v, e)))
        ])

  pub free_loop_total : Returns (free_loop ht.size 0 ht key) Free
  free_loop_total = free_loop-Free ht.size 0 (omega arith) (λ j h. absurd (omega arith))

  -- A key that moves finds a free slot in every table that is not full of entries.
  pub free_loop-moves :
      live ht.items < ht.size
      → sdbm key ht.size ≢ 0
      → (p : ℕ) × (free_loop ht.size 0 ht key ≡ ok (some p))
        × (weight (slot_at ht.items p) ≡ 0)
        × Reach NonEmpty ht.items ht.size key p
  free_loop-moves room moves =
      let (found, run, free) = free_loop_total in
      let (t, low, gap) = free_exists ht.items (rw arranged.width room) in
      let (i, early, lands) =
        probe_hits key ht.size t arranged.prime moves (rw (← arranged.width) low) in
      pick found run free i early (rw lands gap)
    where
      pick :
          (found : Option ℕ)
          → free_loop ht.size 0 ht key ≡ ok found
          → Free found
          → (i : ℕ) → i < ht.size
          → weight (slot_at ht.items (probe key ht.size i)) ≡ 0
          → (p : ℕ) × (free_loop ht.size 0 ht key ≡ ok (some p))
            × (weight (slot_at ht.items p) ≡ 0)
            × Reach NonEmpty ht.items ht.size key p
      pick none run full i early gap =
          let (k, v, e) = full i early in absurd (omega (arith, ap weight e))
      pick (some p) run (gap, reach) i early _ = (p, run, gap, reach)

-- ===== src/Release/Slots.antt =====
-- The loop of `set_free` and `htable_free` over the slots of an array.
use mathlib.Core.List.{append_assoc}
use hyperkv.Base.{
  ℕ, suc, ◌+◌, List, [], ◌∷◌, ◌++◌, ◌≡◌, refl, sym, ap, ◌∙◌, arith, Run, ok, Returns, Str, at,
  length,
}
use hyperkv.HTable.{HashTable}
use hyperkv.HTable.Sound.{Kept, AllKept}
use hyperkv.Release.{Block, array_block, struct_block, free_slots, free_table}
use hyperkv.Slots.{Slot, empty, deleted, item}

-- What the entries of an array own, slot by slot: `Owns` says it of one entry.
abbrev pub SlotsOwn :
    {V : Type 0} → (Owns : Str → V → List Block → Type 0) → List (Slot V) → List Block → Type 0
SlotsOwn Owns [] blocks = blocks ≡ []
SlotsOwn Owns (empty ∷ items) blocks = SlotsOwn Owns items blocks
SlotsOwn Owns (deleted ∷ items) blocks = SlotsOwn Owns items blocks
SlotsOwn Owns (item k v ∷ items) blocks =
    (own : List Block) × (rest : List Block) × Owns k v own
    × SlotsOwn Owns items rest
    × (blocks ≡ own ++ rest)

-- The entries, the array and the struct.
abbrev pub TableOwns :
    {V : Type 0} → (Owns : Str → V → List Block → Type 0) → HashTable V → List Block → Type 0
TableOwns Owns ht blocks =
    (rest : List Block) × SlotsOwn Owns ht.items rest
    × (blocks ≡ rest ++ array_block ∷ struct_block ∷ [])

at-append :
    {A : Type 0} (before rest : List A) (x : A) → at (before ++ x ∷ rest) (length before) ≡ ok x
unfolding at
at-append [] rest x = refl
at-append (y ∷ before) rest x = at-append before rest x

module _ {V : Type 0} (free_entry : Str → V → Run (List Block))
    (Owns : Str → V → List Block → Type 0) (P : V → Type 0)
    (frees : (k : Str) (v : V) → P v → Returns (free_entry k v) (Owns k v)) where
  slot_step :
      (rounds i : ℕ) (items : List (Slot V)) (s : Slot V) (freed rest : List Block)
      → at items i ≡ ok s
      → elim s [ empty ↦ ok [] | deleted ↦ ok [] | item k v ↦ free_entry k v ] ≡ ok freed
      → free_slots free_entry rounds (i + 1) items ≡ ok rest
      → free_slots free_entry (suc rounds) i items ≡ ok (freed ++ rest)
  unfolding free_slots
  slot_step rounds i items s freed rest reads goes later = rw reads (rw goes (rw later refl))

  -- The loop over the slots behind those that it has seen.
  free_slots-own :
      (before items : List (Slot V))
      → AllKept P items
      → Returns
          (free_slots free_entry (length items) (length before) (before ++ items))
          (SlotsOwn Owns items)
  unfolding free_slots
  free_slots-own before [] kept = ([], refl, refl)
  free_slots-own before (s ∷ items) (here, kept) =
      let (rest, later, own) = free_slots-own (before ++ s ∷ []) items kept in
      let next : free_slots free_entry (length items) (length before + 1) (before ++ s ∷ items)
          ≡ ok rest =
        ap (λ n. free_slots free_entry (length items) n (before ++ s ∷ items))
          (sym (one_more before))
        ∙ (ap (free_slots free_entry (length items) (length (before ++ s ∷ [])))
              (sym (append_assoc before (s ∷ []) items))
            ∙ later) in
      go s here rest own (λ freed goes.
        slot_step (length items) (length before) (before ++ s ∷ items) s freed rest
          (at-append before items s) goes next)
    where
      one_more : (before : List (Slot V)) → length (before ++ s ∷ []) ≡ length before + 1
      one_more [] = refl
      one_more (x ∷ before) = omega (arith, one_more before)

      go :
          (t : Slot V)
          → Kept P t
          → (rest : List Block) → SlotsOwn Owns items rest
          → ((freed : List Block)
              → elim t [ empty ↦ ok [] | deleted ↦ ok [] | item k v ↦ free_entry k v ] ≡ ok freed
              → free_slots free_entry (suc (length items)) (length before) (before ++ s ∷ items)
                ≡ ok (freed ++ rest))
          → Returns
              (free_slots free_entry (suc (length items)) (length before) (before ++ s ∷ items))
              (SlotsOwn Owns (t ∷ items))
      go empty here rest own step = (rest, step [] refl, own)
      go deleted here rest own step = (rest, step [] refl, own)
      go (item k v) here rest own step =
          let (freed, goes, owns) = frees k v here in
          (freed ++ rest, step freed goes, (freed, rest, owns, own, refl))

  -- Where the array has its length and the entries can be freed, the loop frees each entry once and
  -- stays in the array.
  pub free_table-own :
      (ht : HashTable V)
      → length ht.items ≡ ht.size
      → AllKept P ht.items
      → Returns (free_table free_entry ht) (TableOwns Owns ht)
  unfolding free_table
  free_table-own ht width kept =
      let (rest, run, own) = free_slots-own [] ht.items kept in
      let run' : free_slots free_entry ht.size 0 ht.items ≡ ok rest =
        ap (λ n. free_slots free_entry n 0 ht.items) (sym width) ∙ run in
      (rest ++ array_block ∷ struct_block ∷ [], rw run' refl, (rest, own, refl))

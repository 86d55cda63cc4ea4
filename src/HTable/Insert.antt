-- ===== src/HTable/Insert.antt =====
-- An insertion into a table that stays below its load, as a resize makes them.
use native.Mathlib.Nat.{div-lt_iff_lt-mul}
use hyperkv.Base.{
  ℕ, suc, ◌+◌, ◌*◌, ◌/◌, ◌≤◌, ◌<◌, Option, none, some, ◌≡◌, ◌≢◌, refl, ◌∙◌, arith, Str, str_eq, Run,
  ok, Returns, if◌then◌else◌, inl, inr, ◌⊎◌, int-ok, int_max, set,
}
use hyperkv.Helper.Hash.{probe-lt, max_size, sdbm}
use hyperkv.HTable.{HashTable, free_loop, resize_up_by, insert_at_depth}
use hyperkv.HTable.Search.{Free, free_loop_total, free_loop-moves}
use hyperkv.Slots.{item, slot_at, live}
use hyperkv.Slots.Count.{weight, live-set}
use hyperkv.Slots.Path.{Reach, NonEmpty, IsArranged}
use hyperkv.Slots.View.{Lacks, view}
use hyperkv.Slots.Write.{place-IsArranged, view-place}

-- The load at which `htable_resize_up` does nothing, as integer division computes it.
abbrev pub Light : ℕ → ℕ → Type 0
Light used size = used * 100 < 71 * size

module _ {ℓ} {V : Type ℓ} where
  -- Below the load the division and the product do not overflow, and the table stays as it is.
  pub resize_up-Light :
      (insert : HashTable V → Str → V → Run (HashTable V)) (ht : HashTable V)
      → ht.size ≤ max_size
      → Light ht.used ht.size
      → resize_up_by insert ht ≡ ok ht
  unfolding resize_up_by
  resize_up-Light insert ht small light =
      let below : ht.used * 100 / ht.size < 71 = (div-lt_iff_lt-mul (omega arith)).1 light in
      rw (int-ok (ht.used * 100) (omega arith)) (ground arith)

  -- The outcome of inserting `key`, which the table did not hold.
  pub record Inserted (ht : HashTable V) (key : Str) (value : V) (r : HashTable V) : Type ℓ where
    pub size : r.size ≡ ht.size
    pub arranged : IsArranged r.size r.items
    pub counted : live r.items + ht.used ≡ live ht.items + r.used
    pub used : r.used ≤ ht.used + 1
    pub views :
        ((q : Str) → view r.items q ≡ (if str_eq key q then some value else view ht.items q))
        ⊎ (r ≡ ht)
    pub stored :
        live ht.items < ht.size
        → sdbm key ht.size ≢ 0
        → (q : Str) → view r.items q ≡ (if str_eq key q then some value else view ht.items q)

  module _ (ht : HashTable V) (arranged : IsArranged ht.size ht.items) (small : ht.size ≤ max_size)
      (key : Str) (value : V) (lacks : Lacks ht.items key) where
    abbrev pub placed : ℕ → HashTable V
    placed p = record ht { used = ht.used + 1; items = set ht.items p (item key value) }

    placed-Inserted :
        (p : ℕ)
        → weight (slot_at ht.items p) ≡ 0
        → Reach NonEmpty ht.items ht.size key p
        → p < ht.size
        → Inserted ht key value (placed p)
    placed-Inserted p free reach low =
        let views = view-place arranged key p value lacks free reach low in
        record {
          size = refl;
          arranged = place-IsArranged arranged key p value lacks free reach low;
          counted = omega (arith, live-set ht.items p (item key value) (rw arranged.width low));
          used = omega arith;
          views = inl views;
          stored = λ room moves. views;
        }

    stuck-Inserted : free_loop ht.size 0 ht key ≡ ok none → Inserted ht key value ht
    stuck-Inserted run = record {
      size = refl;
      arranged = arranged;
      counted = omega arith;
      used = omega arith;
      views = inr refl;
      stored = λ room moves.
          absurd (let (p, run', _, _) = free_loop-moves ht arranged small key room moves in cc);
    }

    -- The loop finds no free slot and the entry is dropped, or it is placed in the slot found.
    pub free_cases :
        ((free_loop ht.size 0 ht key ≡ ok none) × Inserted ht key value ht)
        ⊎ ((p : ℕ) × (free_loop ht.size 0 ht key ≡ ok (some p)) × Inserted ht key value (placed p))
    free_cases = let (found, run, free) = free_loop_total ht arranged small key in go found run free
      where
        go :
            (found : Option ℕ)
            → free_loop ht.size 0 ht key ≡ ok found
            → Free ht arranged small key found
            → ((free_loop ht.size 0 ht key ≡ ok none) × Inserted ht key value ht)
              ⊎ ((p : ℕ) × (free_loop ht.size 0 ht key ≡ ok (some p))
                  × Inserted ht key value (placed p))
        go none run free = inl (run, stuck-Inserted run)
        go (some p) run (free, reach) =
            let low =
              probe-lt key ht.size reach.attempt (omega (arith, arranged.prime.at_least_two)) in
            inr (p, run, placed-Inserted p free reach (rw (← reach.lands) low))

    -- So `htable_insert` leaves the table as it is, or goes on to look at the load.
    pub insert_step :
        (depth : ℕ)
        → ht.used + 1 < int_max
        → ((insert_at_depth (suc depth) ht key value ≡ ok ht) × Inserted ht key value ht)
          ⊎ ((p : ℕ) × (insert_at_depth (suc depth) ht key value
                ≡ resize_up_by (insert_at_depth depth) (placed p))
              × Inserted ht key value (placed p))
    unfolding insert_at_depth
    insert_step depth fits = elim free_cases [
      | inl (run, is) ↦ inl (rw run, is)
      | inr (p, run, is) ↦ inr (p, rw (run, int-ok (ht.used + 1) fits), is)
    ]

    -- With room for one more entry below the load an insertion does not resize, whatever its depth.
    pub insert-Light :
        (depth : ℕ)
        → Light (ht.used + 1) ht.size
        → Returns (insert_at_depth (suc depth) ht key value) (Inserted ht key value)
    insert-Light depth light = elim (insert_step depth (omega arith)) [
      | inl (run, is) ↦ (ht, run, is)
      | inr (p, run, is) ↦
          (placed p, run ∙ resize_up-Light (insert_at_depth depth) (placed p) small light, is)
    ]

-- What a resize asks of the insertion that it calls: below the load an absent key is inserted and
-- the table does not grow.
abbrev pub InsertsLightly {ℓ} : {V : Type ℓ} → (HashTable V → Str → V → Run (HashTable V)) → Type ℓ
InsertsLightly {V} insert =
    (ht : HashTable V)
    → IsArranged ht.size ht.items
    → ht.size ≤ max_size
    → (key : Str) (value : V) → Lacks ht.items key
    → Light (ht.used + 1) ht.size
    → Returns (insert ht key value) (Inserted ht key value)

pub insert_at_depth-InsertsLightly {ℓ} :
    {V : Type ℓ} (depth : ℕ) → InsertsLightly {V = V} (insert_at_depth (suc depth))
insert_at_depth-InsertsLightly depth ht arranged small key value lacks light =
    insert-Light ht arranged small key value lacks depth light

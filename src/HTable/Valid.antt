-- ===== src/HTable/Valid.antt =====
-- The invariant of the table, and the operations that keep it.
use native.Mathlib.Nat.{div-lt_iff_lt-mul}
use hyperkv.Base.{
  ℕ, ◌+◌, ◌*◌, ◌/◌, ◌≤◌, ◌<◌, none, some, ◌≡◌, ◌≢◌, refl, ◌∙◌, ap, arith, true, Str, str_eq,
  eq_of_str_eq, Run, Returns, if◌then◌else◌, Bool-cases, inl, inr, ◌⊎◌, int-ok, ltb,
}
use hyperkv.Helper.Hash.{sdbm}
use hyperkv.HTable.{HashTable, htable_insert, load, resize_up_by, insert_at_depth}
use hyperkv.HTable.Insert.{
  Light, Inserted, InsertsLightly, insert_at_depth-InsertsLightly, insert_step,
}
use hyperkv.HTable.Resize.{AllMove, resize_by-Resized}
use hyperkv.Slots.{live}
use hyperkv.Slots.Path.{IsArranged}
use hyperkv.Slots.View.{view, Lacks-view}

-- The array is searchable, `used` counts at least the entries, and the load is at most 70%.
pub record IsValid {ℓ} {V : Type ℓ} (ht : HashTable V) : Type ℓ where
  pub arranged : IsArranged ht.size ht.items
  pub counted : live ht.items ≤ ht.used
  pub light : Light ht.used ht.size

-- The size from which the next doubling could make a hash overflow `int`.
abbrev pub HasRoom {ℓ} : {V : Type ℓ} → HashTable V → Type 0
HasRoom ht = ht.size * 2 ≤ 46337

half_le : (n : ℕ) → n * 2 ≤ 46337 → n ≤ 46337
half_le n h = omega arith

module _ {ℓ} {V : Type ℓ} (insert : HashTable V → Str → V → Run (HashTable V))
    (law : InsertsLightly insert) where
  pub resize_up-cases :
      (ht : HashTable V)
      → IsArranged ht.size ht.items
      → live ht.items ≤ ht.used
      → Light ht.used (ht.size * 2)
      → HasRoom ht
      → Returns (resize_up_by insert ht) λ r.
        IsValid r
        × (r.used ≡ ht.used)
        × (r.size ≤ 46337)
        × ((q : Str) → (view r.items q ≡ view ht.items q) ⊎ (view r.items q ≡ none))
        × ((r.size ≢ ht.size → AllMove ht.items r.size)
            → (q : Str) → view r.items q ≡ view ht.items q)
  unfolding resize_up_by load
  resize_up-cases ht arranged counted light room =
      rw (int-ok (ht.used * 100) (omega arith))
        (elim (Bool-cases (ltb 70 (ht.used * 100 / ht.size))) [
          | inl heavy ↦
              let (r, run, z) =
                resize_by-Resized insert law ht (ht.size * 2) arranged.unique
                  (omega (arith, arranged.prime.at_least_two)) room (omega arith) in
              rw (heavy, int-ok (ht.size * 2) (omega arith))
                (
                  r,
                  run,
                  (
                    record {
                      arranged = z.arranged;
                      counted = omega (arith, z.counted, z.used);
                      light = omega (arith, z.used, z.next.above);
                    },
                    z.used,
                    z.small,
                    z.partly,
                    λ moves.
                        z.views (moves (omega (arith, z.next.above, arranged.prime.at_least_two))),
                  ),
                )
          | inr not_heavy ↦
              let bound : ht.used * 100 < 71 * ht.size =
                (div-lt_iff_lt-mul (omega (arith, arranged.prime.at_least_two))).0 (ground arith) in
              rw not_heavy (
                ht,
                refl,
                (
                  record { arranged = arranged; counted = counted; light = bound },
                  refl,
                  half_le ht.size room,
                  (λ q. inl refl),
                  λ moves q. refl,
                ),
              )
        ])

module _ {ℓ} {V : Type ℓ} where
  -- What `htable_insert` makes of a table that does not hold `key`. A key is stuck in a table if its
  -- `sdbm` value is 0 there; `partly` says that an entry is kept as it was or lost, and `views` that
  -- none is lost where no key is stuck.
  pub record Added (ht : HashTable V) (key : Str) (value : V) (r : HashTable V) : Type ℓ where
    pub valid : IsValid r
    pub small : r.size ≤ 46337
    pub partly :
        (q : Str)
        → (view r.items q ≡ (if str_eq key q then some value else view ht.items q))
          ⊎ (view r.items q ≡ none)
    pub views :
        sdbm key ht.size ≢ 0
        → (r.size ≢ ht.size → AllMove ht.items r.size × (sdbm key r.size ≢ 0))
        → (q : Str) → view r.items q ≡ (if str_eq key q then some value else view ht.items q)

  module _ (ht : HashTable V) (valid : IsValid ht) (room : HasRoom ht) (key : Str) (value : V)
      (absent : view ht.items key ≡ none) where
    absent_at : (q : Str) → str_eq key q ≡ true → view ht.items q ≡ none
    absent_at q e = rw (← eq_of_str_eq key q e) absent

    -- What holds once the entry is placed, or dropped, and the table has grown if it had to.
    grown-Added :
        (grown r : HashTable V)
        → Inserted ht key value grown
        → IsValid r
        → r.size ≤ 46337
        → ((q : Str) → (view r.items q ≡ view grown.items q) ⊎ (view r.items q ≡ none))
        → ((r.size ≢ grown.size → AllMove grown.items r.size)
            → (q : Str) → view r.items q ≡ view grown.items q)
        → Added ht key value r
    grown-Added grown r is valid' small partly views = record {
      valid = valid';
      small = small;
      partly = λ q. grown_partly q is.views;
      views = λ moves moves' q.
          let placed = is.stored (omega (arith, valid.counted, valid.light)) moves in
          views (λ ne. all_move (placed) (moves' (rw (← is.size) ne))) q ∙ placed q;
    }
      where
        grown_partly :
            (q : Str)
            → ((p : Str)
                → view grown.items p ≡ (if str_eq key p then some value else view ht.items p))
              ⊎ (grown ≡ ht)
            → (view r.items q ≡ (if str_eq key q then some value else view ht.items q))
              ⊎ (view r.items q ≡ none)
        grown_partly q (inl placed) = ground (arith, partly q, placed q)
        grown_partly q (inr same) =
            ground (arith, partly q, absent_at q, ap (λ (t : HashTable V). view t.items q) same)

        all_move :
            ((p : Str)
              → view grown.items p ≡ (if str_eq key p then some value else view ht.items p))
            → AllMove ht.items r.size × (sdbm key r.size ≢ 0)
            → AllMove grown.items r.size
        all_move placed (others, own) p w h = elim (Bool-cases (str_eq key p)) [
          | inl e ↦ rw (← eq_of_str_eq key p e) own
          | inr e ↦ others p w (ground (arith, placed p))
        ]

    -- An entry that was dropped leaves the table as it was.
    pub stuck-Added : Inserted ht key value ht → Added ht key value ht
    stuck-Added is = grown-Added ht ht is valid (omega arith) (λ q. inl refl) (λ moves q. refl)

    -- A placed entry, and the growth that follows it.
    pub resize_up-Added :
        (insert : HashTable V → Str → V → Run (HashTable V))
        → InsertsLightly insert
        → (grown : HashTable V) → Inserted ht key value grown
        → grown.used ≡ ht.used + 1
        → Returns (resize_up_by insert grown) (Added ht key value)
    resize_up-Added insert law grown is used =
        let (r, run, (valid', _, small, partly, views)) =
          resize_up-cases insert law grown is.arranged (omega (arith, is.counted, valid.counted))
            (omega (arith, valid.light, valid.arranged.prime.at_least_two, is.size))
            (omega (arith, is.size)) in
        (r, run, grown-Added grown r is valid' small partly views)

    -- `htable_insert` of an absent key neither overflows nor runs out of depth.
    pub htable_insert-Added : Returns (htable_insert ht key value) (Added ht key value)
    unfolding htable_insert
    htable_insert-Added =
        let lacks = Lacks-view ht.items key absent in
        elim (insert_step ht valid.arranged (omega arith) key value lacks 1
          (omega (arith, valid.light))) [
            | inl (run, is) ↦ (ht, run, stuck-Added is)
            | inr (p, run, is) ↦
                let (r, run', added) =
                  resize_up-Added (insert_at_depth 1) (insert_at_depth-InsertsLightly 0) _ is
                    refl in
                (r, run ∙ run', added)
          ]

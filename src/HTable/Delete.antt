-- ===== src/HTable/Delete.antt =====
-- `htable_del` on a valid table.
use native.Mathlib.Nat.{div-lt_iff_lt-mul}
use hyperkv.Base.{
  ℕ, ◌+◌, ◌-◌, ◌*◌, ◌/◌, ◌≤◌, ◌<◌, Option, none, some, ◌≡◌, refl, ◌∙◌, ap, arith, true, false, Bool,
  Str, str_eq, eq_of_str_eq, Run, ok, Returns, if◌then◌else◌, Bool-cases, inl, inr, ◌⊎◌, int-ok,
  ltb, ltb→lt, set, is_some,
}
use hyperkv.Helper.Hash.{max_size}
use hyperkv.HTable.{
  HashTable, htable_del, htable_search, load, resize_by, insert_at_depth, resize_down_by,
  htable_resize_down,
}
use hyperkv.HTable.Insert.{InsertsLightly, insert_at_depth-InsertsLightly}
use hyperkv.HTable.Resize.{AllMove, resize_by-Resized}
use hyperkv.HTable.Search.{Located, htable_search-Located}
use hyperkv.HTable.Valid.{IsValid}
use hyperkv.Slots.{deleted, live}
use hyperkv.Slots.Count.{weight, live-set}
use hyperkv.Slots.Path.{in_bounds}
use hyperkv.Slots.View.{Holds, Lacks, view, view-Lacks, view-Holds}
use hyperkv.Slots.Write.{bury-IsArranged, view-bury}

-- The test of `htable_resize_down`, as integer division computes it.
abbrev pub Sparse : ℕ → ℕ → Type 0
Sparse used size = used * 100 < 10 * size

module _ {ℓ} {V : Type ℓ} where
  -- A table of the same entries in a smaller array. Where no key is stuck in it none is lost.
  pub record Shrunk (ht r : HashTable V) : Type ℓ where
    pub valid : IsValid r
    pub used : r.used ≡ ht.used
    pub small : r.size ≤ max_size
    pub partly : (q : Str) → (view r.items q ≡ view ht.items q) ⊎ (view r.items q ≡ none)
    pub views :
        (Sparse ht.used ht.size → AllMove ht.items r.size)
        → (q : Str) → view r.items q ≡ view ht.items q

  Shrunk-refl : (ht : HashTable V) → IsValid ht → ht.size ≤ max_size → Shrunk ht ht
  Shrunk-refl ht valid small = record {
    valid = valid;
    used = refl;
    small = small;
    partly = λ q. inl refl;
    views = λ moves q. refl;
  }

  Sparse-load :
      (ht : HashTable V)
      → IsValid ht
      → ltb (ht.used * 100 / ht.size) 10 ≡ true
      → Sparse ht.used ht.size
  Sparse-load ht valid sparse =
      (div-lt_iff_lt-mul (omega (arith, valid.arranged.prime.at_least_two))).0 (ltb→lt _ _ sparse)

  pub resize_down_by-Shrunk :
      (insert : HashTable V → Str → V → Run (HashTable V))
      → InsertsLightly insert
      → (ht : HashTable V) → IsValid ht
      → ht.size ≤ max_size
      → Returns (resize_down_by insert ht) (Shrunk ht)
  unfolding resize_down_by load
  resize_down_by-Shrunk insert law ht valid small =
      rw (int-ok (ht.used * 100) (omega (arith, valid.light)))
        (elim (Bool-cases (ltb (ht.used * 100 / ht.size) 10)) [
          | inr heavy ↦ rw heavy (ht, refl, Shrunk-refl ht valid small)
          | inl sparse ↦ rw sparse (elim (Bool-cases (ltb (ht.size / 2) 2)) [
            | inl tiny ↦ unfold resize_by in rw tiny (ht, refl, Shrunk-refl ht valid small)
            | inr more ↦
                let low = Sparse-load ht valid sparse in
                let two : 2 ≤ ht.size / 2 = ground arith in
                let (r, run, z) =
                  resize_by-Resized insert law ht (ht.size / 2) valid.arranged.unique two
                    (omega arith) (omega (arith, valid.counted)) in
                (
                  r,
                  run,
                  record {
                    valid = record {
                      arranged = z.arranged;
                      counted = omega (arith, z.counted, z.used, valid.counted);
                      light = omega (arith, z.used, z.next.above);
                    };
                    used = z.used;
                    small = omega (arith, z.small);
                    partly = z.partly;
                    views = λ moves. z.views (moves low);
                  },
                )
          ])
        ])

  -- What `htable_del` makes of a table, and the flag that it returns.
  pub record Removed (ht : HashTable V) (key : Str) (r : HashTable V × Bool) : Type ℓ where
    pub valid : IsValid r.0
    pub small : r.0.size ≤ max_size
    pub found : r.1 ≡ is_some (view ht.items key)
    pub used : r.0.used + (if r.1 then 1 else 0) ≡ ht.used
    pub partly :
        (q : Str)
        → (view r.0.items q ≡ (if str_eq key q then none else view ht.items q))
          ⊎ (view r.0.items q ≡ none)
    pub views :
        (Sparse (ht.used - 1) ht.size → AllMove ht.items r.0.size)
        → (q : Str) → view r.0.items q ≡ (if str_eq key q then none else view ht.items q)

  module _ (ht : HashTable V) (valid : IsValid ht) (small : ht.size ≤ max_size) (key : Str) where
    pub absent-Removed : Lacks ht.items key → Removed ht key (ht, false)
    absent-Removed lacks =
        let gone = view-Lacks ht.items key lacks in
        let same : (q : Str) → view ht.items q ≡ (if str_eq key q then none else view ht.items q) =
          λ q. elim (Bool-cases (str_eq key q)) [
            | inl e ↦ rw (e, ← eq_of_str_eq key q e) gone
            | inr e ↦ rw e
          ] in
        record {
          valid = valid;
          small = small;
          found = rw gone;
          used = omega arith;
          partly = λ q. inl (same q);
          views = λ moves. same;
        }

    module _ (p : ℕ) (v : V) (held : Holds ht.items p key v) where
      abbrev pub buried : HashTable V
      buried = record ht { used = ht.used - 1; items = set ht.items p deleted }

      one_less : live (set ht.items p deleted) + 1 ≡ live ht.items
      one_less =
          omega
            (arith, live-set ht.items p deleted (in_bounds ht.items p key v held), ap weight held)

      pub buried-IsValid : IsValid buried
      buried-IsValid = record {
        arranged = bury-IsArranged valid.arranged key p held;
        counted = omega (arith, one_less, valid.counted);
        light = omega (arith, valid.light);
      }

      pub held-Removed : (r : HashTable V) → Shrunk buried r → Removed ht key (r, true)
      held-Removed r z =
          let gone = view-bury valid.arranged key p held in
          record {
            valid = z.valid;
            small = z.small;
            found = rw (view-Holds ht.items p key v valid.arranged.unique held);
            used = omega (arith, z.used, one_less, valid.counted);
            partly = λ q. ground (arith, z.partly q, gone q);
            views = λ moves q.
                z.views (λ sparse k w h. moves sparse k w (ground (arith, gone k))) q ∙ gone q;
          }

    -- `htable_del` on a valid table.
    pub htable_del-Removed : Returns (htable_del ht key) (Removed ht key)
    unfolding htable_del htable_search htable_resize_down
    htable_del-Removed =
        let (found, run, located) = htable_search-Located ht valid.arranged small key in
        go found run located
      where
        go :
            (found : Option (ℕ × V))
            → htable_search ht key ≡ ok found
            → Located ht.items key found
            → Returns (htable_del ht key) (Removed ht key)
        go none run lacks = ((ht, false), rw run, absent-Removed lacks)
        go (some (p, v)) run held =
            let (r, run', z) =
              resize_down_by-Shrunk (insert_at_depth 2) (insert_at_depth-InsertsLightly 1)
                (buried p v held) (buried-IsValid p v held) small in
            ((r, true), rw (run, run'), held-Removed p v held r z)

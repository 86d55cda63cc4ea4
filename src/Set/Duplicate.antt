-- ===== src/Set/Duplicate.antt =====
-- `set_add` of a member behind a tombstone.
use hyperkv.Base.{
  ℕ, zero, suc, ◌+◌, ◌≤◌, ◌<◌, some, ◌≡◌, ◌≢◌, refl, ◌∙◌, ap, arith, true, false, Str, str_eq, ok,
  set, int-ok, get_or-set_self, get_or-set_ne, length, Bool-cases, inl, inr, ◌==◌,
}
use hyperkv.Helper.Hash.{probe, probe-lt, max_size, hash_func-probe}
use hyperkv.HTable.Insert.{Light, resize_up-Light}
use hyperkv.HTable.Valid.{IsValid}
use hyperkv.Set.{StrSet, add_loop, only_set, set_add, add_at_depth}
use hyperkv.Slots.{empty, deleted, item, slot_at}
use hyperkv.Slots.Path.{at-probe}
use hyperkv.Slots.View.{Holds}

module _ (st : StrSet) (valid : IsValid st) (small : st.size ≤ max_size) (key : Str) (t : ℕ)
    (early : t < st.size) (tombstone : slot_at st.items (probe key st.size t) ≡ deleted)
    (others : (j : ℕ)
      → j < t
      → (k : Str) × (v : Unit {0}) × (slot_at st.items (probe key st.size j) ≡ item k v)
        × (str_eq k key ≡ false)) where
  tombstone_stops :
      (r i : ℕ) → i + r ≡ st.size → i ≤ t → add_loop r i st key ≡ ok (some (probe key st.size t))
  unfolding add_loop
  tombstone_stops zero i sum le = absurd (omega arith)
  tombstone_stops (suc r) i sum le = elim (Bool-cases (i == t)) [
    | inl same ↦
        let e : i ≡ t = ground arith in
        rw e
          (rw (hash_func-probe key st.size t early small, at-probe valid.arranged key t, tombstone))
    | inr before ↦
        let (k, v, e, other) = others i (ground arith) in
        rw (hash_func-probe key st.size i (omega arith) small, at-probe valid.arranged key i, e)
          (rw other (tombstone_stops r (i + 1) (omega arith) (ground arith)))
  ]

  -- A string whose path meets a tombstone before any empty slot or the string itself is written
  -- there and reported as new, whether or not a later slot holds it.
  pub set_add_buried :
      Light (st.used + 1) st.size
      → set_add st key
        ≡ ok (
          record st {
            used = st.used + 1;
            items = set st.items (probe key st.size t) (item key tt);
          },
          true,
        )
  unfolding set_add add_at_depth only_set
  set_add_buried light =
      rw (tombstone_stops st.size 0 (omega arith) (omega arith), int-ok (st.used + 1) (omega arith))
        (rw (
          resize_up-Light _
            (record st {
              used = st.used + 1;
              items = set st.items (probe key st.size t) (item key tt);
            })
            small light))

  -- In a valid set of at most `max_size` slots, a member whose path meets a tombstone before the
  -- member, with other members only before that, is stored a second time by `set_add`, which
  -- answers that it is new and counts it, where that leaves the load at 70% or less.
  pub set_add_twice :
      (p : ℕ)
      → Holds st.items p key tt
      → Light (st.used + 1) st.size
      → (r : StrSet) × (set_add st key ≡ ok (r, true))
        × (r.used ≡ st.used + 1)
        × (q : ℕ) × (q ≢ p)
        × Holds r.items p key tt
        × Holds r.items q key tt
  set_add_twice p held light =
      let q = probe key st.size t in
      let apart : q ≢ p = λ e. cc (ap (slot_at st.items) e) in
      let low : q < length st.items =
        rw valid.arranged.width (probe-lt key st.size t (omega arith)) in
      (
        record st { used = st.used + 1; items = set st.items q (item key tt) },
        set_add_buried light,
        refl,
        q,
        apart,
        get_or-set_ne st.items q p (item key tt) empty apart ∙ held,
        get_or-set_self st.items q (item key tt) empty low,
      )

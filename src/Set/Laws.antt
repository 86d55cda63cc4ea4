-- ===== src/Set/Laws.antt =====
-- The set as a collection: `set_add` of a new member, `set_rem`, and what `set_ismember` sees after.
use hyperkv.Base.{
  ◌+◌, ◌-◌, ◌≤◌, Bool, true, false, none, ◌≡◌, ◌≢◌, sym, ◌∙◌, arith, ok, Returns, Returns-ok, Str,
  str_eq, if◌then◌else◌, ◌⊎◌, inl, inr, is_some, Bool-cases,
}
use hyperkv.Helper.Hash.{max_size, sdbm}
use hyperkv.HTable.Delete.{Sparse, Removed}
use hyperkv.HTable.Resize.{AllMove}
use hyperkv.HTable.Valid.{IsValid, HasRoom, Added}
use hyperkv.Set.{StrSet, set_add, set_rem, set_ismember}
use hyperkv.Set.Add.{set_add-Added}
use hyperkv.Set.Member.{set_ismember-view, set_rem-Removed}
use hyperkv.Slots.View.{view}

abbrev Written : StrSet → Str → StrSet × Bool → Type 0
Written st key r = Added st key tt r.0 × ((r.1 ≡ true) ⊎ (r ≡ (st, false)))

module _ (st : StrSet) (valid : IsValid st) (key : Str) where
  -- `set_rem` on a valid set of at most `max_size` slots runs without a fault, tells whether the string was a member, counts one
  -- less if so, keeps the invariant, and leaves every other member or loses it.
  pub set_rem-IsValid :
      st.size ≤ max_size
      → Returns (set_rem st key) λ r.
        IsValid r.0
        × (r.1 ≡ is_some (view st.items key))
        × (r.0.used + (if r.1 then 1 else 0) ≡ st.used)
        × ((q : Str)
            → (view r.0.items q ≡ (if str_eq key q then none else view st.items q))
              ⊎ (view r.0.items q ≡ none))
  set_rem-IsValid small =
      let (r, run, z) = set_rem-Removed st valid small key in
      (r, run, (z.valid, z.found, z.used, z.partly))

  -- After `set_rem` on a valid set of at most `max_size` slots, `set_ismember` answers false for the string and as before for every other,
  -- where, if the load falls below 10%, no member is stuck in the smaller array.
  pub set_ismember-rem :
      {r : StrSet} {b : Bool}
      → st.size ≤ max_size
      → set_rem st key ≡ ok (r, b)
      → (Sparse (st.used - 1) st.size → AllMove st.items r.size)
      → (q : Str) → set_ismember r q ≡ (if str_eq key q then ok false else set_ismember st q)
  set_ismember-rem {r} small run moves q =
      let z = Returns-ok (Removed st key) (set_rem-Removed st valid small key) run in
      set_ismember-view r z.valid z.small q
      ∙ rw (z.views moves q) (elim (Bool-cases (str_eq key q)) [
        | inl e ↦ rw e
        | inr e ↦ rw e (sym (set_ismember-view st valid small q))
      ])

  module _ (room : HasRoom st) (absent : view st.items key ≡ none) where
    -- After `set_add`, to a valid set with room to grow, of a string that was no member, `set_ismember` answers true for it and as
    -- before for every other, where the string is not stuck at its home and no member is stuck in an
    -- array that has grown.
    pub set_ismember-add :
        {r : StrSet} {b : Bool}
        → set_add st key ≡ ok (r, b)
        → sdbm key st.size ≢ 0
        → (r.size ≢ st.size → AllMove st.items r.size × (sdbm key r.size ≢ 0))
        → (q : Str) → set_ismember r q ≡ (if str_eq key q then ok true else set_ismember st q)
    set_ismember-add {r} run moves moves' q =
        let w = Returns-ok (Written st key) (set_add-Added st valid room key absent) run in
        set_ismember-view r w.0.valid (omega (arith, w.0.small)) q
        ∙ rw (w.0.views moves moves' q) (elim (Bool-cases (str_eq key q)) [
          | inl e ↦ rw e
          | inr e ↦ rw e (sym (set_ismember-view st valid (omega arith) q))
        ])

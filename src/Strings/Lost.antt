-- ===== src/Strings/Lost.antt =====
-- `htable_set` of a new key whose only slot is taken.
use hyperkv.Base.{ℕ, true, Option, none, some, ◌≡◌, refl, sym, ◌∙◌, ap, arith, ok, Str}
use hyperkv.Helper.Hash.{probe, sdbm}
use hyperkv.Helper.Hash.Cover.{probe_stuck}
use hyperkv.HTable.{HashTable, free_loop, htable_search, htable_insert, insert_at_depth}
use hyperkv.HTable.Search.{Located, Free, free_loop_total, htable_search-Located}
use hyperkv.HTable.Valid.{IsValid, HasRoom}
use hyperkv.Slots.{slot_at, IsItem}
use hyperkv.Slots.Count.{weight}
use hyperkv.Slots.View.{view, Lacks-view}
use hyperkv.Strings.{htable_set, htable_get}
use hyperkv.Strings.Laws.{htable_get-view}
use hyperkv.Value.{Value}

module _ {H : Type 0} (ht : HashTable (Value H)) (valid : IsValid ht) (room : HasRoom ht)
    (key : Str) (absent : view ht.items key ≡ none) (stuck : sdbm key ht.size ≡ 0)
    (taken : IsItem (slot_at ht.items (probe key ht.size 0))) where
  no_free : free_loop ht.size 0 ht key ≡ ok none
  no_free =
      let (found, run, free) = free_loop_total ht valid.arranged (omega arith) key in
      go found run free
    where
      go :
          (found : Option ℕ)
          → free_loop ht.size 0 ht key ≡ ok found
          → Free ht valid.arranged (omega arith) key found
          → free_loop ht.size 0 ht key ≡ ok none
      go none run free = run
      go (some p) run (gap, reach) =
          let home = sym (probe_stuck key ht.size reach.attempt stuck) ∙ reach.lands in
          let (k, v, e) = taken in
          absurd (omega (arith, gap, ap weight e, ap (λ (t : ℕ). weight (slot_at ht.items t)) home))

  absent_search : htable_search ht key ≡ ok none
  absent_search =
      let (found, run, located) = htable_search-Located ht valid.arranged (omega arith) key in
      go found run located
    where
      go :
          (found : Option (ℕ × Value H))
          → htable_search ht key ≡ ok found
          → Located ht.items key found
          → htable_search ht key ≡ ok none
      go none run located = run
      go (some (p, v)) run held = absurd (Lacks-view ht.items key absent p v held)

  -- Where a key that a valid table with room to grow does not hold is stuck at its home, and the
  -- home is taken, `htable_set` changes nothing: the table stays as it is, the value is not
  -- there afterwards, and `htable_set` returns true all the same.
  pub htable_set-lost :
      (value : Str) → (htable_set ht key value ≡ ok (ht, true)) × (htable_get ht key ≡ ok none)
  unfolding htable_set htable_insert insert_at_depth
  htable_set-lost value =
      (rw (absent_search, no_free), htable_get-view ht valid key (omega arith) ∙ rw absent refl)

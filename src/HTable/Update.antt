-- ===== src/HTable/Update.antt =====
-- The search for a key that a valid table holds, and a new value for it.
use hyperkv.Base.{
  ℕ, ◌≤◌, Option, none, some, ◌≡◌, refl, ◌∙◌, ap, arith, ok, Str, str_eq, if◌then◌else◌,
}
use hyperkv.Helper.Hash.{max_size}
use hyperkv.HTable.{HashTable, htable_search, write_value}
use hyperkv.HTable.Search.{Located, htable_search-Located}
use hyperkv.HTable.Valid.{IsValid}
use hyperkv.Slots.{item}
use hyperkv.Slots.Count.{weight, live-set}
use hyperkv.Slots.Path.{in_bounds}
use hyperkv.Slots.View.{Holds, view, view-Holds, view-Lacks}
use hyperkv.Slots.Write.{update-IsArranged, view-update}

module _ {V : Type 0} (ht : HashTable V) (valid : IsValid ht) (key : Str) where
  pub htable_search-view :
      ht.size ≤ max_size
      → (v : V) → view ht.items key ≡ some v
      → (p : ℕ) × (htable_search ht key ≡ ok (some (p, v))) × Holds ht.items p key v
  htable_search-view small v holds =
      let (found, run, located) = htable_search-Located ht valid.arranged small key in
      go found run located
    where
      go :
          (found : Option (ℕ × V))
          → htable_search ht key ≡ ok found
          → Located ht.items key found
          → (p : ℕ) × (htable_search ht key ≡ ok (some (p, v))) × Holds ht.items p key v
      go none run lacks = let absent = view-Lacks ht.items key lacks in cc
      go (some (p, w)) run held =
          let same : w ≡ v =
            (let there = view-Holds ht.items p key w valid.arranged.unique held in cc) in
          (p, run ∙ ap (λ t. ok (some (p, t))) same, held ∙ ap (λ t. item key t) same)

  module _ (p : ℕ) {old : V} (held : Holds ht.items p key old) (v : V) where
    pub write_value-IsValid : IsValid (write_value ht key p v)
    unfolding write_value
    write_value-IsValid = record {
      arranged = update-IsArranged valid.arranged key p held v;
      counted = omega (
        arith,
        valid.counted,
        ap weight held,
        live-set ht.items p (item key v) (in_bounds ht.items p key old held),
      );
      light = valid.light;
    }

    pub view-write_value :
        (q : Str)
        → view (write_value ht key p v).items q ≡ (if str_eq key q then some v else view ht.items q)
    unfolding write_value
    view-write_value q = view-update valid.arranged key p held v q

    pub size-write_value : (write_value ht key p v).size ≡ ht.size
    unfolding write_value
    size-write_value = refl

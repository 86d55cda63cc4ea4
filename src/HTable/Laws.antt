-- ===== src/HTable/Laws.antt =====
-- The table as a map: what `htable_init`, `htable_insert` and `htable_del` make of it, and when no
-- entry is lost.
use hyperkv.Base.{
  ℕ, ◌+◌, ◌-◌, ◌≤◌, ◌<◌, Bool, true, Option, none, some, ◌≡◌, ◌≢◌, refl, arith, ok, Returns,
  Returns-ok, Str, str_eq, if◌then◌else◌, ◌⊎◌, int_max, is_some, replicate,
}
use hyperkv.Helper.Hash.{max_size, sdbm}
use hyperkv.Helper.Prime.{is_prime}
use hyperkv.Helper.Prime.Next.{IsNextPrime, next_prime_total}
use hyperkv.Helper.Prime.Sound.{is_prime_iff}
use hyperkv.HTable.{HashTable, htable_init, htable_search, htable_insert, htable_del, htable_exists}
use hyperkv.HTable.Delete.{Sparse, Removed, htable_del-Removed}
use hyperkv.HTable.Resize.{AllMove}
use hyperkv.HTable.Search.{Located, htable_search-Located}
use hyperkv.HTable.Valid.{IsValid, HasRoom, Added, htable_insert-Added}
use hyperkv.Slots.{empty}
use hyperkv.Slots.Count.{live-replicate}
use hyperkv.Slots.Path.{replicate-IsArranged, replicate-Lacks}
use hyperkv.Slots.View.{view, view-Holds, view-Lacks}

-- A fresh array of prime size is valid.
pub fresh-IsValid {ℓ} :
    (V : Type ℓ) (size : ℕ)
    → is_prime size ≡ true
    → IsValid {V = V} (record { size = size; used = 0; items = replicate size empty })
fresh-IsValid V size prime =
    let p = (is_prime_iff size).0 prime in
    record {
      arranged = replicate-IsArranged size p;
      counted = omega (arith, live-replicate V size);
      light = omega (arith, p.at_least_two);
    }

-- For a size from 2 on that an `int` holds, `htable_init` returns a valid table with no keys, whose
-- size is the least prime that is not below the size asked for.
pub htable_init-IsValid {ℓ} :
    (V : Type ℓ) (size : ℕ)
    → 2 ≤ size
    → size < int_max
    → Returns (htable_init {V = V} size) λ ht.
      IsValid ht × IsNextPrime size ht.size × (ht.used ≡ 0) × ((q : Str) → view ht.items q ≡ none)
unfolding htable_init
htable_init-IsValid V size two fits =
    let (p, run, (next, _)) = next_prime_total size two fits in
    (
      record { size = p; used = 0; items = replicate p empty },
      rw run,
      (
        fresh-IsValid V p next.prime,
        next,
        refl,
        λ q. view-Lacks (replicate p empty) q (replicate-Lacks {V = V} p q),
      ),
    )

module _ {ℓ} {V : Type ℓ} (ht : HashTable V) (valid : IsValid ht) where
  -- On a valid table of at most `max_size` slots `htable_exists` neither overflows nor leaves the
  -- array, and tells whether the key is held.
  pub htable_exists-view :
      ht.size ≤ max_size → (key : Str) → htable_exists ht key ≡ ok (is_some (view ht.items key))
  unfolding htable_exists
  htable_exists-view small key =
      let (found, run, located) = htable_search-Located ht valid.arranged small key in
      go found run located
    where
      go :
          (found : Option (ℕ × V))
          → htable_search ht key ≡ ok found
          → Located ht.items key found
          → htable_exists ht key ≡ ok (is_some (view ht.items key))
      go none run lacks = rw (run, view-Lacks ht.items key lacks)
      go (some (p, v)) run held = rw (run, view-Holds ht.items p key v valid.arranged.unique held)

  module _ (key : Str) where
    -- Deleting a key from a valid table of at most `max_size` slots runs without a fault, tells whether the key was held, counts
    -- one less if so, keeps the invariant, and leaves every other key as it was or loses it.
    htable_del-IsValid :
        ht.size ≤ max_size
        → Returns (htable_del ht key) λ r.
          IsValid r.0
          × (r.1 ≡ is_some (view ht.items key))
          × (r.0.used + (if r.1 then 1 else 0) ≡ ht.used)
          × ((q : Str)
              → (view r.0.items q ≡ (if str_eq key q then none else view ht.items q))
                ⊎ (view r.0.items q ≡ none))
    htable_del-IsValid small =
        let (r, run, z) = htable_del-Removed ht valid small key in
        (r, run, (z.valid, z.found, z.used, z.partly))

    -- A deletion from a valid table of at most `max_size` slots removes the key and keeps every other,
    -- where, if the load falls below 10%, no key of the table is stuck in the smaller array.
    pub htable_del-view :
        {r : HashTable V} {b : Bool}
        → ht.size ≤ max_size
        → htable_del ht key ≡ ok (r, b)
        → (Sparse (ht.used - 1) ht.size → AllMove ht.items r.size)
        → (q : Str) → view r.items q ≡ (if str_eq key q then none else view ht.items q)
    htable_del-view small run =
        (Returns-ok (Removed ht key) (htable_del-Removed ht valid small key) run).views

    module _ (value : V) (room : HasRoom ht) (absent : view ht.items key ≡ none) where
      -- Inserting an absent key into a valid table with room to grow runs without a fault, keeps the invariant, and
      -- leaves every key with what it should hold or with nothing.
      pub htable_insert-IsValid : Returns (htable_insert ht key value) λ r.
          IsValid r
          × (r.size ≤ 46337)
          × ((q : Str)
              → (view r.items q ≡ (if str_eq key q then some value else view ht.items q))
                ⊎ (view r.items q ≡ none))
      htable_insert-IsValid =
          let (r, run, z) = htable_insert-Added ht valid room key value absent in
          (r, run, (z.valid, z.small, z.partly))

      -- Inserting an absent key into a valid table with room to grow adds the key and keeps every
      -- other, where the key is not stuck at its home, and after a growth neither it nor any key of
      -- the table is.
      pub htable_insert-view :
          {r : HashTable V}
          → htable_insert ht key value ≡ ok r
          → sdbm key ht.size ≢ 0
          → (r.size ≢ ht.size → AllMove ht.items r.size × (sdbm key r.size ≢ 0))
          → (q : Str) → view r.items q ≡ (if str_eq key q then some value else view ht.items q)
      htable_insert-view run =
          (Returns-ok (Added ht key value) (htable_insert-Added ht valid room key value absent)
            run).views

-- ===== src/Strings/Laws.antt =====
-- `htable_set` and `htable_get` of src/htable.c on every kind of key.
use hyperkv.Base.{
  ℕ, ◌≤◌, Bool, true, false, Option, none, some, ◌≡◌, ◌≢◌, refl, sym, ◌∙◌, ap, arith, Run, ok,
  Returns, ◌>>=◌, Str, str_eq, if◌then◌else◌, inl, inr, ◌⊎◌, set, Returns-ok, Bool-cases,
}
use hyperkv.Helper.Hash.{max_size, sdbm}
use hyperkv.HTable.{HashTable, htable_search}
use hyperkv.HTable.Resize.{AllMove}
use hyperkv.HTable.Search.{Located, htable_search-Located}
use hyperkv.HTable.Valid.{IsValid, HasRoom, htable_insert-Added}
use hyperkv.Slots.{item}
use hyperkv.Slots.Count.{weight, live-set}
use hyperkv.Slots.Path.{in_bounds}
use hyperkv.Slots.View.{Holds, view, view-Holds, view-Lacks}
use hyperkv.Slots.Write.{update-IsArranged, view-update}
use hyperkv.Strings.{htable_update_str, htable_set, as_string, htable_get}
use hyperkv.Value.{Value, str_t, hash_t, list_t, set_t, is_str}

module _ {H : Type 0} where
  -- `htable_set` takes a new key and a key that holds a string.
  abbrev pub takes_string : Option (Value H) → Bool
  takes_string none = true
  takes_string (some v) = is_str v

  -- What `htable_get` returns of what a key holds.
  abbrev pub read_string : Option (Value H) → Run (Option Str)
  read_string none = ok none
  read_string (some v) = as_string v >>= λ s. ok (some s)

  -- No key is stuck at its home in the table, nor in the one that it may have grown into.
  abbrev pub NoneStuck : HashTable (Value H) → Str → HashTable (Value H) → Type 0
  NoneStuck ht key r =
      (sdbm key ht.size ≢ 0) × (r.size ≢ ht.size → AllMove ht.items r.size × (sdbm key r.size ≢ 0))

  pub record Written (ht : HashTable (Value H)) (key value : Str) (r : HashTable (Value H) × Bool)
      : Type 0 where
    pub valid : IsValid r.0
    pub small : r.0.size ≤ max_size
    pub flag : r.1 ≡ takes_string (view ht.items key)
    pub rejected : (r.1 ≡ true) ⊎ (r.0 ≡ ht)
    pub partly :
        (q : Str)
        → (view r.0.items q ≡ (
            if r.1
            then (if str_eq key q then some (str_t value) else view ht.items q)
            else view ht.items q))
          ⊎ (view r.0.items q ≡ none)
    pub views :
        r.1 ≡ true
        → (view ht.items key ≡ none → NoneStuck ht key r.0)
        → (q : Str)
        → view r.0.items q ≡ (if str_eq key q then some (str_t value) else view ht.items q)

  module _ (ht : HashTable (Value H)) (valid : IsValid ht) (key : Str) where
    module _ (small : ht.size ≤ max_size) where
      -- In a valid table of at most `max_size` slots `htable_get` reads what the table holds under
      -- the key, or that it holds nothing. An item that is no string is read as one.
      pub htable_get-view : htable_get ht key ≡ read_string (view ht.items key)
      unfolding htable_get
      htable_get-view =
          let (found, run, located) = htable_search-Located ht valid.arranged small key in
          go found run located
        where
          go :
              (found : Option (ℕ × Value H))
              → htable_search ht key ≡ ok found
              → Located ht.items key found
              → htable_get ht key ≡ read_string (view ht.items key)
          go none run lacks = rw (run, view-Lacks ht.items key lacks)
          go (some (p, v)) run held =
              rw (run, view-Holds ht.items p key v valid.arranged.unique held)

    module _ (small : ht.size ≤ max_size) (value : Str) (p : ℕ) (v : Value H)
        (held : Holds ht.items p key v) where
      abbrev updated : HashTable (Value H)
      updated = record ht { items = set ht.items p (item key (str_t value)) }

      updated-IsValid : IsValid updated
      updated-IsValid = record {
        arranged = update-IsArranged valid.arranged key p held (str_t value);
        counted = omega (
          arith,
          valid.counted,
          ap weight held,
          live-set ht.items p (item key (str_t value)) (in_bounds ht.items p key v held),
        );
        light = valid.light;
      }

      updated-Written : is_str v ≡ true → Written ht key value (updated, true)
      updated-Written string =
          let holds = view-Holds ht.items p key v valid.arranged.unique held in
          record {
            valid = updated-IsValid;
            small = small;
            flag = rw (holds, string);
            rejected = inl refl;
            partly = λ q. inl (view-update valid.arranged key p held (str_t value) q);
            views = λ _ _. view-update valid.arranged key p held (str_t value);
          }

      rejected-Written : is_str v ≡ false → Written ht key value (ht, false)
      rejected-Written other =
          let holds = view-Holds ht.items p key v valid.arranged.unique held in
          record {
            valid = valid;
            small = small;
            flag = rw (holds, other);
            rejected = inr refl;
            partly = λ q. inl refl;
            views = λ e. cc;
          }

    small_of : HasRoom ht → ht.size ≤ max_size
    small_of room = omega arith

    -- The outcome on every kind of key.
    pub htable_set-Written :
        HasRoom ht → (value : Str) → Returns (htable_set ht key value) (Written ht key value)
    unfolding htable_set htable_search htable_update_str
    htable_set-Written room value =
        let (found, run, located) = htable_search-Located ht valid.arranged (omega arith) key in
        go found run located
      where
        go :
            (found : Option (ℕ × Value H))
            → htable_search ht key ≡ ok found
            → Located ht.items key found
            → Returns (htable_set ht key value) (Written ht key value)
        go none run lacks =
            let absent = view-Lacks ht.items key lacks in
            let (r, run', added) = htable_insert-Added ht valid room key (str_t value) absent in
            (
              (r, true),
              rw (run, run'),
              record {
                valid = added.valid;
                small = omega (arith, added.small);
                flag = rw absent;
                rejected = inl refl;
                partly = added.partly;
                views = λ _ moves. added.views (moves absent).0 (moves absent).1;
              },
            )
        go (some (p, str_t s)) run held = (
          (updated (small_of room) value p (str_t s) held, true),
          rw (run, run),
          updated-Written (small_of room) value p (str_t s) held refl,
        )
        go (some (p, hash_t s)) run held =
            ((ht, false), rw run, rejected-Written (small_of room) value p _ held refl)
        go (some (p, list_t s)) run held =
            ((ht, false), rw run, rejected-Written (small_of room) value p _ held refl)
        go (some (p, set_t s)) run held =
            ((ht, false), rw run, rejected-Written (small_of room) value p _ held refl)

    -- On a valid table with room to grow `htable_set` runs without a fault on every kind of key and
    -- keeps the invariant. It returns true
    -- exactly for a new key and for one that holds a string, and leaves the table alone otherwise.
    -- Where it returns true, every key is left with what it should hold or with nothing.
    pub htable_set-IsValid :
        HasRoom ht
        → (value : Str)
        → Returns (htable_set ht key value) λ r.
          IsValid r.0
          × (r.1 ≡ takes_string (view ht.items key))
          × ((r.1 ≡ true) ⊎ (r.0 ≡ ht))
          × ((q : Str)
              → (view r.0.items q ≡ (
                  if r.1
                  then (if str_eq key q then some (str_t value) else view ht.items q)
                  else view ht.items q))
                ⊎ (view r.0.items q ≡ none))
    htable_set-IsValid room value =
        let (r, run, w) = htable_set-Written room value in
        (r, run, (w.valid, w.flag, w.rejected, w.partly))

module _ {H : Type 0} (ht : HashTable (Value H)) (valid : IsValid ht) (room : HasRoom ht)
    (key value : Str) where
  -- After `htable_set` on a valid table with room to grow has accepted a value, `htable_get` reads the value under the key and what it
  -- read before under every other, provided that a new key is not stuck at its home and that no
  -- key is stuck in an array that has grown.
  pub htable_get-set :
      {r : HashTable (Value H)}
      → htable_set ht key value ≡ ok (r, true)
      → (view ht.items key ≡ none → NoneStuck ht key r)
      → (q : Str) → htable_get r q ≡ (if str_eq key q then ok (some value) else htable_get ht q)
  htable_get-set {r} run moves q =
      let w = Returns-ok (Written ht key value) (htable_set-Written ht valid key room value) run in
      htable_get-view r w.valid q w.small
      ∙ rw (w.views refl moves q) (elim (Bool-cases (str_eq key q)) [
        | inl e ↦ rw e
        | inr e ↦ rw e (sym (htable_get-view ht valid q (omega arith)))
      ])

-- ===== src/Objects/Hashes/Laws.antt =====
-- `htable_hset` and `htable_hget` on a key that holds a hash.
use hyperkv.Base.{
  ◌≤◌, true, none, some, ◌≡◌, refl, sym, ◌∙◌, ap, ok, Returns, Str, str_eq, str_eq_refl,
  if◌then◌else◌, is_some,
}
use hyperkv.Helper.Hash.{max_size}
use hyperkv.HTable.{htable_search, htable_exists, write_value}
use hyperkv.HTable.Laws.{htable_exists-view}
use hyperkv.HTable.Update.{
  htable_search-view, write_value-IsValid, view-write_value, size-write_value,
}
use hyperkv.HTable.Valid.{IsValid, HasRoom}
use hyperkv.Objects.Hashes.{htable_update_hash, htable_hset, htable_hget}
use hyperkv.Slots.View.{view}
use hyperkv.Strings.{htable_set, htable_get}
use hyperkv.Strings.Laws.{NoneStuck, htable_get-set}
use hyperkv.Value.{hash_t, FieldTable, Store}

htable_hget-view :
    (ht : Store)
    → IsValid ht
    → ht.size ≤ max_size
    → (key : Str) (h : FieldTable) → view ht.items key ≡ some (hash_t h)
    → (field : Str) → htable_hget ht key field ≡ htable_get h field
unfolding htable_hget
htable_hget-view ht valid small key h held field =
    let (p, run, at_p) = htable_search-view ht valid key small (hash_t h) held in rw run refl

module _ (ht : Store) (valid : IsValid ht) (small : ht.size ≤ max_size) (key : Str)
    (h h' : FieldTable) (held : view ht.items key ≡ some (hash_t h)) (valid' : IsValid h)
    (room : HasRoom h) where
  -- On a valid table of at most `max_size` slots, where a key holds a hash whose table is valid, has
  -- room to grow and accepts a field with its value, `htable_hset` runs without a fault, returns true
  -- and keeps the table valid. Then `htable_hget` reads the value of the field and what it read before
  -- of every other, provided that a new field is not stuck at its home and that no field is stuck in
  -- an array that has grown; every other key holds what it held.
  pub htable_hget-hset :
      (field value : Str)
      → htable_set h field value ≡ ok (h', true)
      → (view h.items field ≡ none → NoneStuck h field h')
      → Returns (htable_hset ht key field value) λ r.
        IsValid r.0
        × (r.1 ≡ true)
        × ((f : Str)
            → htable_hget r.0 key f
              ≡ (if str_eq field f then ok (some value) else htable_hget ht key f))
        × ((q : Str)
            → view r.0.items q ≡ (if str_eq key q then some (hash_t h') else view ht.items q))
  unfolding htable_hset htable_update_hash htable_search
  htable_hget-hset field value accepts moves =
      let exists : htable_exists ht key ≡ ok true =
        htable_exists-view ht valid small key ∙ ap (λ t. ok (is_some t)) held in
      let (p, run, at_p) = htable_search-view ht valid key small (hash_t h) held in
      let r = write_value ht key p (hash_t h') in
      let views = view-write_value ht valid key p at_p (hash_t h') in
      let valid'' = write_value-IsValid ht valid key p at_p (hash_t h') in
      let here : view r.items key ≡ some (hash_t h') =
        views key ∙ ap (λ b. if b then some (hash_t h') else view ht.items key) (str_eq_refl key) in
      (
        (r, true),
        rw exists (rw run (rw accepts refl)),
        (
          valid'',
          refl,
          (λ f.
              htable_hget-view r valid''
                (rw (size-write_value ht valid key p at_p (hash_t h')) small) key h' here f
              ∙ (htable_get-set h valid' room field value accepts moves f
                  ∙ ap (λ t. if str_eq field f then ok (some value) else t)
                      (sym (htable_hget-view ht valid small key h held f)))),
          views,
        ),
      )

-- ===== src/Objects/Sets/Laws.antt =====
-- Adding to the set of a key, and asking it for a member.
use hyperkv.Base.{
  ◌≤◌, arith, Bool, true, none, some, ◌≡◌, ◌≢◌, refl, sym, ap, ◌∙◌, ok, Returns, Str, str_eq,
  str_eq_refl, is_some, if◌then◌else◌, inl, inr,
}
use hyperkv.Helper.Hash.{max_size, sdbm}
use hyperkv.HTable.{htable_search, htable_exists, write_value}
use hyperkv.HTable.Laws.{htable_exists-view}
use hyperkv.HTable.Resize.{AllMove}
use hyperkv.HTable.Update.{
  htable_search-view, write_value-IsValid, view-write_value, size-write_value,
}
use hyperkv.HTable.Valid.{IsValid, HasRoom}
use hyperkv.Objects.Sets.{htable_update_set, htable_sadd, htable_sismember}
use hyperkv.Set.{StrSet, set_add, set_ismember}
use hyperkv.Set.Add.{set_add-Added}
use hyperkv.Set.Laws.{set_ismember-add}
use hyperkv.Slots.View.{view}
use hyperkv.Value.{set_t, Store}

htable_sismember-held :
    (ht : Store)
    → IsValid ht
    → ht.size ≤ max_size
    → (key : Str) (st : StrSet) → view ht.items key ≡ some (set_t st)
    → (q : Str) → htable_sismember ht key q ≡ set_ismember st q
unfolding htable_sismember
htable_sismember-held ht valid small key st held q =
    let (p, run, at_p) = htable_search-view ht valid key small (set_t st) held in rw run refl

-- What `htable_sadd` leaves of a key that holds a set.
record Grown (ht : Store) (key : Str) (st' : StrSet) (added : Bool) (r : Store × Bool)
    : Type 0 where
  flag : r.1 ≡ added
  valid : IsValid r.0
  size : r.0.size ≡ ht.size
  views :
      (k : Str) → view r.0.items k ≡ (if str_eq key k then some (set_t st') else view ht.items k)

module _ (ht : Store) (valid : IsValid ht) (small : ht.size ≤ max_size) (key : Str) (st : StrSet)
    (held : view ht.items key ≡ some (set_t st)) (value : Str) where
  htable_sadd-Grown :
      {st' : StrSet} {added : Bool}
      → set_add st value ≡ ok (st', added)
      → Returns (htable_sadd ht key value) (Grown ht key st' added)
  unfolding htable_sadd htable_update_set htable_search
  htable_sadd-Grown {st'} {added} adds =
      let exists : htable_exists ht key ≡ ok true =
        htable_exists-view ht valid small key ∙ ap (λ t. ok (is_some t)) held in
      let (p, run, at_p) = htable_search-view ht valid key small (set_t st) held in
      (
        (write_value ht key p (set_t st'), added),
        rw exists (rw run (rw adds refl)),
        record {
          flag = refl;
          valid = write_value-IsValid ht valid key p at_p (set_t st');
          size = size-write_value ht valid key p at_p (set_t st');
          views = view-write_value ht valid key p at_p (set_t st');
        },
      )

  module _ (set_valid : IsValid st) (room : HasRoom st) (absent : view st.items value ≡ none)
      (moves : sdbm value st.size ≢ 0) where
    set_add-true :
        ((st' : StrSet) (added : Bool)
          → set_add st value ≡ ok (st', added)
          → st'.size ≢ st.size
          → AllMove st.items st'.size × (sdbm value st'.size ≢ 0))
        → (st' : StrSet) × (set_add st value ≡ ok (st', true))
    set_add-true grows =
        let ((st', added), adds, (w, either)) = set_add-Added st set_valid room value absent in
        elim either [
          | inl e ↦ (st', cc (adds, e))
          | inr e ↦
              let there : view st'.items value ≡ some tt =
                w.views moves (grows st' added adds) value ∙ rw (str_eq_refl value) refl in
              let same : view st'.items value ≡ view st.items value =
                ap (λ r. view r.0.items value) e in
              absurd (let no : none ≡ some tt = sym absent ∙ (sym same ∙ there) in cc)
        ]

    -- On a valid table of at most `max_size` slots, where a key holds a set that is valid, has room to
    -- grow and does not hold the string, `set_add` of the string and `htable_sadd` of it run without a
    -- fault and return true, and the table stays valid; then `htable_sismember` answers true for the
    -- string and as before for every other, and the key holds the set that `set_add` leaves, every other
    -- what it held. The string is not stuck at its home, and neither it nor any member is stuck in an
    -- array that `set_add` has grown.
    pub htable_sismember-sadd :
        ((st' : StrSet) (added : Bool)
          → set_add st value ≡ ok (st', added)
          → st'.size ≢ st.size
          → AllMove st.items st'.size × (sdbm value st'.size ≢ 0))
        → (st' : StrSet) × (set_add st value ≡ ok (st', true))
          × (Returns (htable_sadd ht key value) λ r.
              (r.1 ≡ true)
              × IsValid r.0
              × ((q : Str)
                  → htable_sismember r.0 key q
                    ≡ (if str_eq value q then ok true else htable_sismember ht key q))
              × ((k : Str)
                  → view r.0.items k
                    ≡ (if str_eq key k then some (set_t st') else view ht.items k)))
    htable_sismember-sadd grows =
        let (st', adds) = set_add-true grows in
        let (r, run, a) = htable_sadd-Grown adds in
        let small' : r.0.size ≤ max_size = omega (arith, a.size) in
        let there : view r.0.items key ≡ some (set_t st') =
          a.views key ∙ rw (str_eq_refl key) refl in
        (
          st',
          adds,
          (
            r,
            run,
            (
              a.flag,
              a.valid,
              (λ q.
                  htable_sismember-held r.0 a.valid small' key st' there q
                  ∙ (set_ismember-add st set_valid value room absent adds moves
                        (grows st' true adds) q
                      ∙ ap (λ t. if str_eq value q then ok true else t)
                          (sym (htable_sismember-held ht valid small key st held q)))),
              a.views,
            ),
          ),
        )

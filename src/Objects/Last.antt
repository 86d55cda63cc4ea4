-- ===== src/Objects/Last.antt =====
-- A key whose object loses its last value, field or member.
use hyperkv.Base.{
  ◌≤◌, ◌+◌, sym, is_some, ℕ, Bool, true, false, [], ◌∷◌, Option, none, some, ◌≡◌, refl, ap, ◌∙◌,
  arith, Returns, Str, str_eq, str_eq_refl, if◌then◌else◌, ◌⊎◌, inl, inr, ◌==◌,
}
use hyperkv.Helper.Hash.{max_size}
use hyperkv.HTable.{HashTable, htable_del, write_value}
use hyperkv.HTable.Delete.{Removed, htable_del-Removed}
use hyperkv.HTable.Update.{
  htable_search-view, write_value-IsValid, view-write_value, size-write_value,
}
use hyperkv.HTable.Valid.{IsValid}
use hyperkv.List.{LinkedList}
use hyperkv.List.Seq.{IsSeq, length-Linked, value_of}
use hyperkv.Objects.Hashes.{htable_hdel}
use hyperkv.Objects.Lists.{ListDirection, pop_at, htable_pop}
use hyperkv.Objects.Lists.Laws.{pop_at-pushed, load-value_of}
use hyperkv.Objects.Sets.{htable_srem}
use hyperkv.Set.{StrSet}
use hyperkv.Set.Member.{set_rem-Removed}
use hyperkv.Slots.View.{Holds, view}
use hyperkv.Value.{Value, FieldTable, hash_t, list_t, set_t, Store}

-- The key is gone, and every other holds what it held or nothing.
abbrev pub Gone : Store → Str → Store → Type 0
Gone ht key r =
    IsValid r
    × (view r.items key ≡ none)
    × ((q : Str)
        → (view r.items q ≡ (if str_eq key q then none else view ht.items q))
          ⊎ (view r.items q ≡ none))

still_without :
    {A : Type 0} (b : Bool) (y w : Option A)
    → (if b then none else (if b then y else w)) ≡ (if b then none else w)
still_without true y w = refl
still_without false y w = refl

-- A list of one value, without it.
pop_last :
    (dir : ListDirection) (ls : LinkedList) (value : Str)
    → IsSeq ls (value ∷ [])
    → Returns (pop_at dir ls) λ r. IsSeq r.0 [] × (value_of r.0 r.1 ≡ some value)
pop_last ListDirection.left ls value seq = pop_at-pushed ListDirection.left ls [] value seq
pop_last ListDirection.right ls value seq = pop_at-pushed ListDirection.right ls [] value seq

none_left : (ls : LinkedList) → IsSeq ls [] → (ls.len == 0) ≡ true
none_left ls seq =
    ground (arith, seq.len, length-Linked ls.node_at none seq.addresses [] seq.linked)

-- A deletion of the only entry.
last_counted :
    {V : Type 0} (h : HashTable V) (key : Str) (r : HashTable V × Bool)
    → Removed h key r
    → h.used ≡ 1
    → {v : V} → view h.items key ≡ some v
    → (r.1 ≡ true) × (r.0.used ≡ 0)
last_counted h key r z one there =
    let flag : r.1 ≡ true = z.found ∙ ap is_some there in
    let less : r.0.used + 1 ≡ h.used =
      ap (λ b. r.0.used + (if b then 1 else 0)) (sym flag) ∙ z.used in
    (flag, omega (arith, less, one))

module _ (ht : Store) (valid : IsValid ht) (small : ht.size ≤ max_size) (key : Str) where
  -- The deletion after the write of a new value.
  del_written :
      (p : ℕ) {old : Value FieldTable}
      → Holds ht.items p key old
      → (v : Value FieldTable)
      → Returns (htable_del (write_value ht key p v) key) λ r. Gone ht key r.0
  del_written p at_p v =
      let ht' = write_value ht key p v in
      let small' : ht'.size ≤ max_size = omega (arith, size-write_value ht valid key p at_p v) in
      let (r, run, z) =
        htable_del-Removed ht' (write_value-IsValid ht valid key p at_p v) small' key in
      (
        r,
        run,
        (
          z.valid,
          elim (z.partly key) [ inl e ↦ e ∙ rw (str_eq_refl key) refl | inr e ↦ e ],
          λ q. elim (z.partly q) [
            | inl e ↦ inl (
                e
                ∙ (ap (λ t. if str_eq key q then none else t)
                      (view-write_value ht valid key p at_p v q)
                    ∙ still_without (str_eq key q) (some v) (view ht.items q)))
            | inr e ↦ inr e
          ],
        ),
      )

  -- On a valid table of at most `max_size` slots, where a key holds a valid hash of at most as many,
  -- which counts one field and holds the field, `htable_hdel` of the field returns true and the key is
  -- gone; the table stays valid, and every other key holds what it held or nothing.
  pub hdel-Gone :
      (h : FieldTable)
      → view ht.items key ≡ some (hash_t h)
      → IsValid h
      → h.size ≤ max_size
      → h.used ≡ 1
      → (field : Str) {value : Value ⊥} → view h.items field ≡ some value
      → Returns (htable_hdel ht key field) λ r. Gone ht key r.0 × (r.1 ≡ true)
  unfolding htable_hdel
  hdel-Gone h held h_valid h_small one field there =
      let ((h', res), dels, z) = htable_del-Removed h h_valid h_small field in
      let (flag, last) = last_counted h field (h', res) z one there in
      let (p, run, at_p) = htable_search-view ht valid key small (hash_t h) held in
      let (r, run', gone) = del_written p at_p (hash_t h') in
      let empty : (h'.used == 0) ≡ true = ground (arith, last) in
      ((r.0, res), rw run (rw dels (rw empty (rw run' refl))), (gone, flag))

  -- On a valid table of at most `max_size` slots, where a key holds a valid set of at most as many, which
  -- counts one member and holds the string, `htable_srem` of the string returns true and the key is
  -- gone; the table stays valid, and every other key holds what it held or nothing.
  pub srem-Gone :
      (st : StrSet)
      → view ht.items key ≡ some (set_t st)
      → IsValid st
      → st.size ≤ max_size
      → st.used ≡ 1
      → (value : Str) → view st.items value ≡ some tt
      → Returns (htable_srem ht key value) λ r. Gone ht key r.0 × (r.1 ≡ true)
  unfolding htable_srem
  srem-Gone st held st_valid st_small one value there =
      let ((st', res), rems, z) = set_rem-Removed st st_valid st_small value in
      let (flag, last) = last_counted st value (st', res) z one there in
      let (p, run, at_p) = htable_search-view ht valid key small (set_t st) held in
      let (r, run', gone) = del_written p at_p (set_t st') in
      let empty : (st'.used == 0) ≡ true = ground (arith, last) in
      ((r.0, res), rw run (rw rems (rw empty (rw run' refl))), (gone, flag))

  -- On a valid table of at most `max_size` slots, where a key holds a list that stands for one value,
  -- `htable_pop` at either end returns the value and the key is gone; the table stays valid, and every
  -- other key holds what it held or nothing.
  pub pop-Gone :
      (ls : LinkedList)
      → view ht.items key ≡ some (list_t ls)
      → (value : Str) → IsSeq ls (value ∷ [])
      → (dir : ListDirection)
      → Returns (htable_pop ht key dir) λ r. Gone ht key r.0 × (r.1 ≡ some value)
  unfolding htable_pop
  pop-Gone ls held value seq dir =
      let (p, run, at_p) = htable_search-view ht valid key small (list_t ls) held in
      let ((ls', node), run', (seq', e)) = pop_last dir ls value seq in
      let (n, run'', same) = load-value_of ls' node value e in
      let (r, run3, gone) = del_written p at_p (list_t ls') in
      (
        (r.0, some n.1.value),
        rw run (rw run' (rw run'' (rw (none_left ls' seq') (rw run3 refl)))),
        (gone, ap some same),
      )

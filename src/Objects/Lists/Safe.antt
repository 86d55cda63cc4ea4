-- ===== src/Objects/Lists/Safe.antt =====
-- The operations on lists keep the table sound.
use hyperkv.Base.{
  ℕ, true, List, [], ◌∷◌, ℤ, pos_part, ◌≡◌, refl, ◌∙◌, arith, Option, none, some, ok, Fault, Str,
  codes, ◌==◌, ◌||◌, leb, str_eq, Safe, Safe-bind, Safe-option, Safe-if, Safe-map, Safe-Returns,
}
use hyperkv.HTable.{write_value}
use hyperkv.HTable.Safe.{htable_insert-Safe, htable_del-Safe}
use hyperkv.HTable.Sound.{search-Safe, exists-Safe, locate_loop-Safe, write_value-IsSound}
use hyperkv.List.{ListNode, LinkedList, load, list_init, list_lpop, list_rpop}
use hyperkv.List.Back.{list_rpush-Safe}
use hyperkv.List.Edit.{Leads, list_index-Leads, list_set-IsSeq}
use hyperkv.List.Front.{list_lpush-Safe, list_lpop-IsSeq}
use hyperkv.List.Range.{list_range-Safe}
use hyperkv.List.Read.{list_pos-position}
use hyperkv.List.Removal.{list_rem-without}
use hyperkv.List.Rpop.{end_of, list_rpop-IsSeq}
use hyperkv.List.Seq.{IsSeq, length-Linked, value_of, list_init-IsSeq}
use hyperkv.Objects.Lists.{
  ListDirection, push_at, pop_at, htable_update_list, htable_push, htable_pop, htable_llen,
  htable_check_id, htable_check_ids, htable_lindex, htable_lset, htable_lrem, htable_lpos,
  htable_lrange,
}
use hyperkv.Objects.Safe.{as_list-Safe, htable_type-Safe}
use hyperkv.Value.{list_t, Store}
use hyperkv.Value.Safe.{IsWhole, IsSafeStore}

abbrev HasSeq : LinkedList → Type 0
HasSeq ls = (vs : List Str) × IsSeq ls vs

push_at-Safe :
    (dir : ListDirection) (ls : LinkedList)
    → HasSeq ls
    → (value : Str) → Safe HasSeq (push_at dir ls value)
push_at-Safe ListDirection.left ls (vs, seq) value =
    Safe-map (list_lpush-Safe ls value vs seq) λ r z. (_, z)
push_at-Safe ListDirection.right ls (vs, seq) value =
    Safe-map (list_rpush-Safe ls value vs seq) λ r z. (_, z)

-- What is popped is a node, or NULL.
abbrev Popped : LinkedList × Option ℕ → Type 0
Popped r = HasSeq r.0 × Leads r.0 r.1

value_of-Leads : (ls : LinkedList) (p : Option ℕ) (v : Str) → value_of ls p ≡ some v → Leads ls p
value_of-Leads ls none v e = tt
value_of-Leads ls (some p) v e = go (ls.node_at p) refl e
  where
    go :
        (n : Option ListNode)
        → ls.node_at p ≡ n
        → elim n [ none ↦ none | some n ↦ some n.value ] ≡ some v
        → Leads ls (some p)
    go none at_p e = cc
    go (some n) at_p e = (n, at_p)

pop_empty : (dir : ListDirection) (ls : LinkedList) → IsSeq ls [] → pop_at dir ls ≡ ok (ls, none)
unfolding list_lpop list_rpop
pop_empty dir ls seq =
    let low : leb ls.len 0 ≡ true =
      ground (arith, seq.len, length-Linked ls.node_at none seq.addresses [] seq.linked) in
    go dir low
  where
    go : (dir : ListDirection) → leb ls.len 0 ≡ true → pop_at dir ls ≡ ok (ls, none)
    go ListDirection.left low = rw low refl
    go ListDirection.right low = rw low refl

end_of-some : (v : Str) (vs : List Str) → (w : Str) × (end_of (v ∷ vs) ≡ some w)
end_of-some v [] = (v, refl)
end_of-some v (w ∷ vs) = end_of-some w vs

pop_at-Safe : (dir : ListDirection) (ls : LinkedList) → HasSeq ls → Safe Popped (pop_at dir ls)
pop_at-Safe dir ls ([], seq) = rw (pop_empty dir ls seq) (Safe.returns _ (([], seq), tt))
pop_at-Safe ListDirection.left ls (v ∷ vs, seq) =
    let (r, run, (seq', e)) = list_lpop-IsSeq ls (v ∷ vs) seq in
    rw run (Safe.returns r ((vs, seq'), value_of-Leads r.0 r.1 v e))
pop_at-Safe ListDirection.right ls (v ∷ vs, seq) =
    let (r, run, (seq', e)) = list_rpop-IsSeq ls (v ∷ vs) seq in
    let (last, end) = end_of-some v vs in
    rw run (Safe.returns r ((_, seq'), value_of-Leads r.0 r.1 last (e ∙ end)))

load-Safe : (ls : LinkedList) (p : Option ℕ) → Leads ls p → Safe (λ _. Unit) (load ls p)
unfolding load
load-Safe ls none leads = Safe.fails Fault.null_pointer tt
load-Safe ls (some p) (n, at_p) = rw (at_p, load) (Safe.returns _ tt)

module _ (ht : Store) (sound : IsSafeStore ht) (key : Str) where
  htable_update_list-Safe :
      (value : Str) (dir : ListDirection)
      → Safe (λ r. IsSafeStore r.0) (htable_update_list ht key value dir)
  unfolding htable_update_list
  htable_update_list-Safe value dir = Safe-bind _ (locate_loop-Safe sound key ht.size 0) (
      Safe-option _ _ _ (λ _. Safe.returns _ sound)
        λ x found. Safe-bind _ (as_list-Safe x.1 found.2) λ tmp whole.
          Safe-bind _ (push_at-Safe dir tmp whole value) λ tmp' whole'.
            Safe.returns _ (write_value-IsSound sound key x.0 x.1 (list_t tmp') found whole'))

  pub htable_push-Safe :
      (value : Str) (dir : ListDirection)
      → Safe (λ r. IsSafeStore r.0) (htable_push ht key value dir)
  unfolding htable_push
  htable_push-Safe value dir = Safe-bind _ (exists-Safe sound key) λ exists _.
      Safe-if _ _ exists (λ _. htable_update_list-Safe value dir)
        λ _.
          (Safe-bind _ (push_at-Safe dir list_init ([], list_init-IsSeq) value) λ new_ls whole.
            Safe-bind _ (htable_insert-Safe IsWhole ht sound key (list_t new_ls) whole)
              λ ht' sound'. Safe.returns _ sound')

  pub htable_pop-Safe : (dir : ListDirection) → Safe (λ r. IsSafeStore r.0) (htable_pop ht key dir)
  unfolding htable_pop
  htable_pop-Safe dir = Safe-bind _ (search-Safe sound key) (
      Safe-option _ _ _ (λ _. Safe.returns _ sound)
        λ x found. Safe-bind _ (as_list-Safe x.1 found.2) λ tmp_ls whole.
          Safe-bind _ (pop_at-Safe dir tmp_ls whole) λ r (whole', leads).
            Safe-bind _ (load-Safe r.0 r.1 leads) λ n _.
              let ht' = write_value ht key x.0 (list_t r.0) in
              let sound' : IsSafeStore ht' =
                write_value-IsSound sound key x.0 x.1 (list_t r.0) found whole' in
              Safe-if _ _ (r.0.len == 0)
                (λ _.
                  Safe-bind _ (htable_del-Safe IsWhole ht' sound' key)
                    λ _ sound''. Safe.returns _ sound'')
                (λ _. Safe.returns _ sound'))

  pub htable_llen-Safe : Safe (λ _. Unit) (htable_llen ht key)
  unfolding htable_llen
  htable_llen-Safe = Safe-bind _ (search-Safe sound key) (
      Safe-option _ _ _ (λ _. Safe.returns _ tt)
        λ x found. Safe-bind _ (as_list-Safe x.1 found.2) λ tmp_ls whole. Safe.returns _ tt)

  pub htable_check_id-Safe : (id : ℤ) → Safe (λ _. Unit) (htable_check_id ht key id)
  unfolding htable_check_id
  htable_check_id-Safe id = Safe-bind _ (search-Safe sound key) (
      Safe-option _ _ _ (λ _. Safe.returns _ tt)
        λ x found. Safe-bind _ (as_list-Safe x.1 found.2) λ tmp_ls whole. Safe.returns _ tt)

  pub htable_check_ids-Safe : (begin end : ℤ) → Safe (λ _. Unit) (htable_check_ids ht key begin end)
  unfolding htable_check_ids
  htable_check_ids-Safe begin end = Safe-bind _ (search-Safe sound key) (
      Safe-option _ _ _ (λ _. Safe.returns _ tt)
        λ x found. Safe-bind _ (as_list-Safe x.1 found.2) λ tmp_ls whole. Safe.returns _ tt)

  pub htable_lindex-Safe : (id : ℤ) → Safe (λ _. Unit) (htable_lindex ht key id)
  unfolding htable_lindex
  htable_lindex-Safe id = Safe-bind _ (search-Safe sound key) (
      Safe-option _ _ _ (λ _. Safe.returns _ tt)
        λ x found. Safe-bind _ (as_list-Safe x.1 found.2) λ tmp_ls (vs, seq).
          Safe-bind _ (Safe-Returns (list_index-Leads tmp_ls vs seq id)) (
            Safe-option (Leads tmp_ls) _ _ (λ _. Safe.returns _ tt)
              λ p leads. Safe-bind _ (load-Safe tmp_ls (some p) leads) λ r _. Safe.returns _ tt))

  pub htable_lset-Safe :
      (id : ℤ) (value : Str) → Safe (λ r. IsSafeStore r.0) (htable_lset ht key id value)
  unfolding htable_lset
  htable_lset-Safe id value = Safe-bind _ (search-Safe sound key) (
      Safe-option _ _ _ (λ _. Safe.returns _ sound)
        λ x found. Safe-bind _ (as_list-Safe x.1 found.2) λ tmp_ls (vs, seq).
          Safe-bind _ (Safe-Returns (list_set-IsSeq tmp_ls vs seq id value)) λ r (seq', _).
            Safe.returns _ (write_value-IsSound sound key x.0 x.1 (list_t r.0) found (_, seq')))

  pub htable_lrem-Safe :
      (count : ℤ) (value : Str) → Safe (λ r. IsSafeStore r.0) (htable_lrem ht key count value)
  unfolding htable_lrem
  htable_lrem-Safe count value = Safe-bind _ (search-Safe sound key) (
      Safe-option _ _ _ (λ _. Safe.returns _ sound)
        λ x found. Safe-bind _ (as_list-Safe x.1 found.2) λ tmp_ls (vs, seq).
          Safe-bind _ (Safe-Returns (list_rem-without tmp_ls vs seq count value)) λ r (seq', _).
            let ht' = write_value ht key x.0 (list_t r.0) in
            let sound' : IsSafeStore ht' =
              write_value-IsSound sound key x.0 x.1 (list_t r.0) found (_, seq') in
            Safe-if _ _ (r.0.len == 0)
              (λ _.
                Safe-bind _ (htable_del-Safe IsWhole ht' sound' key)
                  λ _ sound''. Safe.returns _ sound'')
              (λ _. Safe.returns _ sound'))

  pub htable_lpos-Safe : (value : Str) → Safe (λ _. Unit) (htable_lpos ht key value)
  unfolding htable_lpos
  htable_lpos-Safe value = Safe-bind _ (search-Safe sound key) (
      Safe-option _ _ _ (λ _. Safe.returns _ tt)
        λ x found.
          Safe-bind _ (as_list-Safe x.1 found.2)
            λ tmp_ls (vs, seq). rw (list_pos-position tmp_ls vs seq value) (Safe.returns _ tt))

  pub htable_lrange-Safe : (begin end : ℤ) → Safe (λ _. Unit) (htable_lrange ht key begin end)
  unfolding htable_lrange
  htable_lrange-Safe begin end = Safe-bind _ (htable_type-Safe ht sound key) λ type _.
      Safe-if _ _ (str_eq type (codes "list") || str_eq type (codes "none"))
        (λ _. Safe-bind _ (search-Safe sound key) (
          Safe-option _ _ _ (λ _. Safe.fails Fault.null_pointer tt)
            λ x found. Safe-bind _ (as_list-Safe x.1 found.2) λ tmp_ls (vs, seq).
              Safe-bind _ (list_range-Safe tmp_ls vs seq (pos_part begin) (pos_part end))
                λ res _. Safe.returns _ tt))
        (λ _. Safe.returns _ tt)

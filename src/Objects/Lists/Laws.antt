-- ===== src/Objects/Lists/Laws.antt =====
-- Pushing onto the list of a key, and popping from it.
use hyperkv.Base.{
  ℕ, ◌+◌, ◌≤◌, ◌<◌, Bool, true, false, List, [], ◌∷◌, ◌++◌, Option, none, some, ◌≡◌, refl, ◌∙◌, ap,
  subst, arith, ok, ◌>>=◌, Returns, Str, str_eq, str_eq_refl, if◌then◌else◌, is_some, int_max,
  drop_last-snoc, ◌==◌,
}
use hyperkv.Helper.Hash.{max_size}
use hyperkv.HTable.{htable_search, htable_exists, write_value}
use hyperkv.HTable.Laws.{htable_exists-view}
use hyperkv.HTable.Update.{
  htable_search-view, write_value-IsValid, view-write_value, size-write_value,
}
use hyperkv.HTable.Valid.{IsValid}
use hyperkv.List.{ListNode, LinkedList, load}
use hyperkv.List.Back.{list_rpush-IsSeq}
use hyperkv.List.Front.{list_lpush-IsSeq, list_lpop-IsSeq}
use hyperkv.List.Rpop.{list_rpop-IsSeq, end_of}
use hyperkv.List.Seq.{IsSeq, length-Linked, value_of}
use hyperkv.Objects.Lists.{
  ListDirection, push_at, pop_at, htable_update_list, htable_push, htable_pop,
}
use hyperkv.Slots.View.{view}
use hyperkv.Value.{list_t, Store}

-- The values with one more at the end that a direction names.
abbrev pub pushed : ListDirection → List Str → Str → List Str
pushed ListDirection.left vs value = value ∷ vs
pushed ListDirection.right vs value = vs ++ value ∷ []

end_of-snoc : (vs : List Str) (value : Str) → end_of (vs ++ value ∷ []) ≡ some value
end_of-snoc [] value = refl
end_of-snoc (v ∷ []) value = refl
end_of-snoc (v ∷ w ∷ vs) value = end_of-snoc (w ∷ vs) value

push_at-IsSeq :
    (dir : ListDirection) (ls : LinkedList) (vs : List Str) (value : Str)
    → IsSeq ls vs
    → ls.len + 1 < int_max
    → Returns (push_at dir ls value) λ r. IsSeq r (pushed dir vs value)
push_at-IsSeq ListDirection.left ls vs value seq fits = list_lpush-IsSeq ls value fits vs seq
push_at-IsSeq ListDirection.right ls vs value seq fits = list_rpush-IsSeq ls value fits vs seq

pub pop_at-pushed :
    (dir : ListDirection) (ls : LinkedList) (vs : List Str) (value : Str)
    → IsSeq ls (pushed dir vs value)
    → Returns (pop_at dir ls) λ r. IsSeq r.0 vs × (value_of r.0 r.1 ≡ some value)
pop_at-pushed ListDirection.left ls vs value seq = list_lpop-IsSeq ls (value ∷ vs) seq
pop_at-pushed ListDirection.right ls vs value seq =
    let (r, run, (seq', e)) = list_rpop-IsSeq ls (vs ++ value ∷ []) seq in
    (r, run, (subst (IsSeq r.0) (drop_last-snoc vs value) seq', e ∙ end_of-snoc vs value))

pub load-value_of :
    (ls : LinkedList) (p : Option ℕ) (v : Str)
    → value_of ls p ≡ some v
    → Returns (load ls p) λ n. n.1.value ≡ v
unfolding load
load-value_of ls none v e = cc
load-value_of ls (some p) v e = go (ls.node_at p) refl e
  where
    go :
        (n : Option ListNode)
        → ls.node_at p ≡ n
        → elim n [ none ↦ none | some n ↦ some n.value ] ≡ some v
        → Returns (load ls (some p)) λ n. n.1.value ≡ v
    go none at_p e = cc
    go (some n) at_p e =
        ((p, n), rw (at_p, load) refl, (let same : some n.value ≡ some v = e in cc))

not_empty : (ls : LinkedList) (v : Str) (vs : List Str) → IsSeq ls (v ∷ vs) → (ls.len == 0) ≡ false
not_empty ls v vs seq =
    ground (arith, seq.len, length-Linked ls.node_at none seq.addresses (v ∷ vs) seq.linked)

-- The later of two writes under one key counts.
twice :
    {A : Type 0} (x y z w : A) (b : Bool)
    → y ≡ (if b then w else z)
    → (if b then x else y) ≡ (if b then x else z)
twice x y z w true e = refl
twice x y z w false e = e

-- The table holds the list under the key, and what another holds under every other key.
record Pushed (ht : Store) (key : Str) (values : List Str) (r : Store) : Type 0 where
  list : LinkedList
  valid : IsValid r
  size : r.size ≡ ht.size
  seq : IsSeq list values
  views :
      (q : Str) → view r.items q ≡ (if str_eq key q then some (list_t list) else view ht.items q)

module _ (ht : Store) (valid : IsValid ht) (small : ht.size ≤ max_size) (key : Str)
    (ls : LinkedList) (held : view ht.items key ≡ some (list_t ls)) (vs : List Str)
    (seq : IsSeq ls vs) where
  htable_push-Pushed :
      (value : Str) (dir : ListDirection)
      → ls.len + 1 < int_max
      → Returns (htable_push ht key value dir) λ r. Pushed ht key (pushed dir vs value) r.0
  unfolding htable_push htable_update_list htable_search
  htable_push-Pushed value dir fits =
      let exists : htable_exists ht key ≡ ok true =
        htable_exists-view ht valid small key ∙ ap (λ t. ok (is_some t)) held in
      let (p, run, at_p) = htable_search-view ht valid key small (list_t ls) held in
      let (ls', run', seq') = push_at-IsSeq dir ls vs value seq fits in
      (
        (write_value ht key p (list_t ls'), ls'.len),
        rw exists (rw run (rw run' refl)),
        record {
          list = ls';
          valid = write_value-IsValid ht valid key p at_p (list_t ls');
          size = size-write_value ht valid key p at_p (list_t ls');
          seq = seq';
          views = view-write_value ht valid key p at_p (list_t ls');
        },
      )

module _ (ht : Store) (valid : IsValid ht) (small : ht.size ≤ max_size) (key : Str)
    (ls : LinkedList) (held : view ht.items key ≡ some (list_t ls)) (v : Str) (vs : List Str)
    (value : Str) (dir : ListDirection) (seq : IsSeq ls (pushed dir (v ∷ vs) value)) where
  htable_pop-Pushed :
      Returns (htable_pop ht key dir) λ r. Pushed ht key (v ∷ vs) r.0 × (r.1 ≡ some value)
  unfolding htable_pop
  htable_pop-Pushed =
      let (p, run, at_p) = htable_search-view ht valid key small (list_t ls) held in
      let ((ls', node), run', (seq', e)) = pop_at-pushed dir ls (v ∷ vs) value seq in
      let (n, run'', same) = load-value_of ls' node value e in
      (
        (write_value ht key p (list_t ls'), some n.1.value),
        rw run (rw run' (rw run'' (rw (not_empty ls' v vs seq') refl))),
        (
          record {
            list = ls';
            valid = write_value-IsValid ht valid key p at_p (list_t ls');
            size = size-write_value ht valid key p at_p (list_t ls');
            seq = seq';
            views = view-write_value ht valid key p at_p (list_t ls');
          },
          ap some same,
        ),
      )

module _ (ht : Store) (valid : IsValid ht) (small : ht.size ≤ max_size) (key : Str)
    (ls : LinkedList) (held : view ht.items key ≡ some (list_t ls)) (v : Str) (vs : List Str)
    (seq : IsSeq ls (v ∷ vs)) where
  -- On a valid table of at most `max_size` slots, where a key holds a list that stands for some
  -- values, and the length of the list with one more is an `int`, `htable_push` and then `htable_pop` at
  -- the same end run without a fault and pop the value that was pushed. They leave a valid table,
  -- where the key holds a list that stands for the same values, and every other key what it held.
  pub htable_pop-push :
      (value : Str) (dir : ListDirection)
      → ls.len + 1 < int_max
      → Returns (htable_push ht key value dir >>= λ r. htable_pop r.0 key dir) λ r.
        IsValid r.0
        × (r.1 ≡ some value)
        × (ls' : LinkedList) × IsSeq ls' (v ∷ vs)
        × ((q : Str)
            → view r.0.items q ≡ (if str_eq key q then some (list_t ls') else view ht.items q))
  htable_pop-push value dir fits =
      let (r, run, pushed) =
        htable_push-Pushed ht valid small key ls held (v ∷ vs) seq value dir fits in
      let here : view r.0.items key ≡ some (list_t pushed.list) =
        pushed.views key
        ∙ ap (λ b. if b then some (list_t pushed.list) else view ht.items key) (str_eq_refl key) in
      let (r', run', (popped, e)) =
        htable_pop-Pushed r.0 pushed.valid (rw pushed.size small) key pushed.list here v vs value
          dir pushed.seq in
      (
        r',
        rw run run',
        (
          popped.valid,
          e,
          popped.list,
          popped.seq,
          λ q. popped.views q ∙ twice _ _ _ _ (str_eq key q) (pushed.views q),
        ),
      )

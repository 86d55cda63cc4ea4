-- ===== src/Set/Add.antt =====
-- `set_add` on a set that lacks the member.
use hyperkv.Base.{
  ℕ, zero, suc, ◌+◌, ◌≤◌, ◌<◌, none, ◌≡◌, refl, ap, ◌∙◌, arith, true, false, Str, str_eq,
  eq_of_str_eq, ok, Returns, ◌>>=◌, Bool-cases, inl, inr, ◌⊎◌, int-ok, int_max,
}
use hyperkv.Helper.Hash.{probe, max_size, hash_func-probe}
use hyperkv.HTable.{free_loop, resize_up_by}
use hyperkv.HTable.Insert.{Inserted, InsertsLightly, placed, free_cases, resize_up-Light}
use hyperkv.HTable.Valid.{IsValid, HasRoom, Added, stuck-Added, resize_up-Added}
use hyperkv.Set.{StrSet, add_loop, only_set, add_at_depth, set_add}
use hyperkv.Slots.{item, slot_at, Slot-cases}
use hyperkv.Slots.Path.{IsArranged, at-probe}
use hyperkv.Slots.View.{Lacks, Lacks-view, view}

module _ (st : StrSet) (arranged : IsArranged st.size st.items) (small : st.size ≤ max_size)
    (key : Str) (lacks : Lacks st.items key) where
  -- No slot holds the member, so the loop looks for a free slot as `htable_insert` does.
  add_loop-eq : (r i : ℕ) → i + r ≡ st.size → add_loop r i st key ≡ free_loop r i st key
  unfolding add_loop free_loop
  add_loop-eq zero i sum = refl
  add_loop-eq (suc r) i sum =
      rw (hash_func-probe key st.size i (omega arith) small, at-probe arranged key i)
        (elim (Slot-cases (slot_at st.items (probe key st.size i))) [
          | inl e ↦ rw e
          | inr (inl e) ↦ rw e
          | inr (inr (k, v, e)) ↦ rw e (elim (Bool-cases (str_eq k key)) [
            | inl same ↦ absurd (lacks _ v (e ∙ ap (λ t. item t v) (eq_of_str_eq k key same)))
            | inr other ↦ rw other (add_loop-eq r (i + 1) (omega arith))
          ])
        ])

  add_step :
      (depth : ℕ)
      → st.used + 1 < int_max
      → ((add_at_depth (suc depth) st key ≡ ok (st, false)) × Inserted st key tt st)
        ⊎ ((p : ℕ) × (add_at_depth (suc depth) st key
              ≡ resize_up_by
                  (λ s k _. only_set (add_at_depth depth s k))
                  (placed st arranged small key tt lacks p)
                >>= (λ r. ok (r, true)))
            × Inserted st key tt (placed st arranged small key tt lacks p))
  unfolding add_at_depth
  add_step depth fits = elim (free_cases st arranged small key tt lacks) [
    | inl (run, is) ↦ inl (rw (add_loop-eq st.size 0 (omega arith), run), is)
    | inr (p, run, is) ↦
        inr (p, rw (add_loop-eq st.size 0 (omega arith), run, int-ok (st.used + 1) fits), is)
  ]

pub add_at_depth-InsertsLightly :
    (depth : ℕ) → InsertsLightly (λ s k (v : Unit {0}). only_set (add_at_depth (suc depth) s k))
unfolding only_set
add_at_depth-InsertsLightly depth st arranged small key tt lacks light =
    elim (add_step st arranged small key lacks depth (omega arith)) [
      | inl (run, is) ↦ (st, rw run, is)
      | inr (p, run, is) ↦ (
        placed st arranged small key tt lacks p,
        rw (
          run,
          resize_up-Light (λ s k _. only_set (add_at_depth depth s k))
              (placed st arranged small key tt lacks p) small light,
        ),
        is,
      )
    ]

-- `set_add` of a string that the set lacks neither overflows nor runs out of depth, and adds it as
-- an insertion does; the flag says so only if a free slot was found.
pub set_add-Added :
    (st : StrSet)
    → IsValid st
    → HasRoom st
    → (key : Str) → view st.items key ≡ none
    → Returns (set_add st key) λ r. Added st key tt r.0 × ((r.1 ≡ true) ⊎ (r ≡ (st, false)))
unfolding set_add
set_add-Added st valid room key absent =
    let lacks = Lacks-view st.items key absent in
    elim (add_step st valid.arranged (omega arith) key lacks 1 (omega (arith, valid.light))) [
      | inl (run, is) ↦ ((st, false), run, (stuck-Added st valid room key tt absent is, inr refl))
      | inr (p, run, is) ↦
          let (r, run', added) =
            resize_up-Added st valid room key tt absent (λ s k _. only_set (add_at_depth 1 s k))
              (add_at_depth-InsertsLightly 0) _ is refl in
          ((r, true), rw (run, run'), (added, inl refl))
    ]

-- ===== src/Set/Safe.antt =====
-- The set stays sound, whatever its members: duplicates do no harm to that.
use hyperkv.Base.{
  ℕ, zero, suc, ◌+◌, ◌-◌, Bool, true, false, none, some, refl, arith, Str, str_eq, set, inl, inr,
  Safe, Safe-bind, Safe-option, Safe-map, Safe-if, int-Safe,
}
use hyperkv.HTable.Safe.{
  Placed, InsertsSafely, htable_init-Safe, resize_up_by-Safe, resize_up_by-Light,
  resize_down_by-Safe,
}
use hyperkv.HTable.Sound.{
  IsSound, Gap, hash_func-Safe, read, locate_loop-Safe, placed-IsSound, buried-IsSound,
}
use hyperkv.Set.{
  StrSet, set_init, add_loop, only_set, add_at_depth, set_add, set_resize_down, set_rem,
  set_ismember,
}
use hyperkv.Slots.{deleted, item, slot_at, Slot-cases}

abbrev pub Any : Unit {0} → Type 0
Any _ = Unit

pub set_init-Safe : (size : ℕ) → Safe (IsSound Any) (set_init size)
unfolding set_init
set_init-Safe size = Safe-map (htable_init-Safe Any size) λ st z. z.0

module _ (st : StrSet) (sound : IsSound Any st) (key : Str) where
  add_loop-Safe : (r i : ℕ) → Safe (Gap Any st) (add_loop r i st key)
  unfolding add_loop
  add_loop-Safe zero i = Safe.returns none tt
  add_loop-Safe (suc r) i =
      let rest = add_loop-Safe r (i + 1) in
      Safe-bind _ (hash_func-Safe key st.size i sound.positive) λ h low.
        rw (read sound key h low) (elim (Slot-cases (slot_at st.items h)) [
          | inl e ↦ rw e (Safe.returns (some h) (rw sound.width low, rw e refl))
          | inr (inl e) ↦ rw e (Safe.returns (some h) (rw sound.width low, rw e refl))
          | inr (inr (k, v, e)) ↦
              rw e (Safe-if _ _ (str_eq k key) (λ _. Safe.returns none tt) (λ _. rest))
        ])

add_at_depth-Light :
    (depth : ℕ) → InsertsSafely Any (λ s k _. only_set (add_at_depth (suc depth) s k))
unfolding add_at_depth only_set
add_at_depth-Light depth st sound light key v kept =
    Safe-bind {P = λ (r : StrSet × Bool). Placed Any st r.0} _
      (Safe-bind _ (add_loop-Safe st sound key st.size 0) (
        Safe-option _ _ _ (λ _. Safe.returns (st, false) (sound, omega arith, refl))
          λ p gap. Safe-bind _ (int-Safe (st.used + 1)) λ used e.
            let grown = record st { used = used; items = set st.items p (item key tt) } in
            let sound' : IsSound Any grown = rw e (placed-IsSound sound key p tt gap tt) in
            Safe-bind _
              (resize_up_by-Light Any (λ s k _. only_set (add_at_depth depth s k)) grown
                sound.positive (rw e light))
              λ r same. Safe.returns (r, true) (rw same (sound', omega (arith, e), refl))))
      λ r z. Safe.returns r.0 z

pub set_add-Safe :
    (st : StrSet) → IsSound Any st → (key : Str) → Safe (λ r. IsSound Any r.0) (set_add st key)
unfolding set_add add_at_depth
set_add-Safe st sound key = Safe-bind _ (add_loop-Safe st sound key st.size 0) (
    Safe-option _ _ _ (λ _. Safe.returns (st, false) sound)
      λ p gap. Safe-bind _ (int-Safe (st.used + 1)) λ used e.
        let grown = record st { used = used; items = set st.items p (item key tt) } in
        let sound' : IsSound Any grown = rw e (placed-IsSound sound key p tt gap tt) in
        Safe-bind _
          (resize_up_by-Safe Any (λ s k _. only_set (add_at_depth 1 s k)) (add_at_depth-Light 0)
            grown sound')
          λ r z. Safe.returns (r, true) z.0)

pub set_rem-Safe :
    (st : StrSet) → IsSound Any st → (key : Str) → Safe (λ r. IsSound Any r.0) (set_rem st key)
unfolding set_rem set_resize_down set_add
set_rem-Safe st sound key = Safe-bind _ (locate_loop-Safe sound key st.size 0) (
    Safe-option _ _ _ (λ _. Safe.returns (st, false) sound)
      λ x found.
        Safe-bind _
          (resize_down_by-Safe Any (λ s k _. only_set (add_at_depth 2 s k)) (add_at_depth-Light 1)
            (record st { used = st.used - 1; items = set st.items x.0 deleted })
            (buried-IsSound sound key x.0 x.1 found))
          λ r z. Safe.returns (r, true) z.0)

pub set_ismember-Safe :
    (st : StrSet) → IsSound Any st → (key : Str) → Safe (λ _. Unit) (set_ismember st key)
unfolding set_ismember
set_ismember-Safe st sound key =
    Safe-bind _ (locate_loop-Safe sound key st.size 0)
      (Safe-option _ _ _ (λ _. Safe.returns false tt) (λ x _. Safe.returns true tt))

-- ===== src/Set/Member.antt =====
-- `set_ismember` and `set_rem` on a valid set, and `set_add` of a member.
use hyperkv.Base.{
  ℕ, zero, suc, ◌+◌, ◌≤◌, Option, none, some, ◌≡◌, ◌≢◌, refl, ap, arith, true, false, Str, str_eq,
  str_eq_refl, ok, Returns, Bool-cases, inl, inr, is_some, ◌==◌,
}
use hyperkv.Helper.Hash.{probe, max_size, hash_func-probe}
use hyperkv.HTable.{htable_search}
use hyperkv.HTable.Delete.{
  Removed, absent-Removed, held-Removed, buried, buried-IsValid, resize_down_by-Shrunk,
}
use hyperkv.HTable.Search.{Located, htable_search-Located}
use hyperkv.HTable.Valid.{IsValid}
use hyperkv.Set.{
  StrSet, add_loop, only_set, set_add, set_rem, set_ismember, set_resize_down, add_at_depth,
}
use hyperkv.Set.Add.{add_at_depth-InsertsLightly}
use hyperkv.Slots.{empty, deleted, item, slot_at, Slot-cases}
use hyperkv.Slots.Path.{at-probe, Reach, NonEmpty}
use hyperkv.Slots.View.{Holds, Holds-view, view, view-Holds, view-Lacks}

module _ (st : StrSet) (valid : IsValid st) (small : st.size ≤ max_size) (key : Str) where
  -- On a valid set of at most `max_size` slots `set_ismember` neither overflows nor leaves the array, and tells whether the set holds the
  -- string.
  pub set_ismember-view : set_ismember st key ≡ ok (is_some (view st.items key))
  unfolding set_ismember htable_search
  set_ismember-view =
      let (found, run, located) = htable_search-Located st valid.arranged small key in
      go found run located
    where
      go :
          (found : Option (ℕ × Unit {0}))
          → htable_search st key ≡ ok found
          → Located st.items key found
          → set_ismember st key ≡ ok (is_some (view st.items key))
      go none run lacks = rw (run, view-Lacks st.items key lacks)
      go (some (p, tt)) run held = rw (run, view-Holds st.items p key tt valid.arranged.unique held)

  -- `set_rem` on a valid set.
  pub set_rem-Removed : Returns (set_rem st key) (Removed st key)
  unfolding set_rem htable_search set_resize_down set_add
  set_rem-Removed =
      let (found, run, located) = htable_search-Located st valid.arranged small key in
      go found run located
    where
      go :
          (found : Option (ℕ × Unit {0}))
          → htable_search st key ≡ ok found
          → Located st.items key found
          → Returns (set_rem st key) (Removed st key)
      go none run lacks = ((st, false), rw run, absent-Removed st valid small key lacks)
      go (some (p, v)) run held =
          let (r, run', z) =
            resize_down_by-Shrunk (λ s k _. only_set (add_at_depth 2 s k))
              (add_at_depth-InsertsLightly 1) (buried st valid small key p v held)
              (buried-IsValid st valid small key p v held) small in
          ((r, true), rw (run, run'), held-Removed st valid small key p v held r z)

  module _ (fresh : (q : ℕ) → slot_at st.items q ≢ deleted) (p : ℕ)
      (held : Holds st.items p key tt) where
    not_empty :
        (reach : Reach NonEmpty st.items st.size key p) (i : ℕ)
        → i ≤ reach.attempt
        → slot_at st.items (probe key st.size i) ≢ empty
    not_empty reach i le gap = elim (Bool-cases (i == reach.attempt)) [
      | inl same ↦
          let e : i ≡ reach.attempt = ground arith in
          let here = ap (λ (j : ℕ). slot_at st.items (probe key st.size j)) e in
          cc (here, ap (slot_at st.items) reach.lands)
      | inr earlier ↦ reach.before i (ground arith) gap
    ]

    not_last :
        (reach : Reach NonEmpty st.items st.size key p) (i : ℕ) (k : Str) (v : Unit {0})
        → slot_at st.items (probe key st.size i) ≡ item k v
        → str_eq k key ≡ false
        → i ≢ reach.attempt
    not_last reach i k v here other e =
        let same : k ≡ key = cc (
          ap (λ (j : ℕ). slot_at st.items (probe key st.size j)) e,
          ap (slot_at st.items) reach.lands,
        ) in
        cc (ap (λ t. str_eq t key) same, str_eq_refl key)

    member_stops :
        (reach : Reach NonEmpty st.items st.size key p) (r i : ℕ)
        → i + r ≡ st.size
        → i ≤ reach.attempt
        → add_loop r i st key ≡ ok none
    unfolding add_loop
    member_stops reach zero i sum le = refl
    member_stops reach (suc r) i sum le =
        rw (hash_func-probe key st.size i (omega arith) small, at-probe valid.arranged key i)
          (elim (Slot-cases (slot_at st.items (probe key st.size i))) [
            | inl e ↦ absurd (not_empty reach i le e)
            | inr (inl e) ↦ absurd (fresh _ e)
            | inr (inr (k, v, e)) ↦ rw e (elim (Bool-cases (str_eq k key)) [
              | inl same ↦ rw same
              | inr other ↦ rw other (
                  let later = not_last reach i k v e other in
                  member_stops reach (r) (i + 1) (omega arith) (omega arith))
            ])
          ])

    held_stops : add_loop st.size 0 st key ≡ ok none
    held_stops =
        member_stops (valid.arranged.placed p key tt held) st.size 0 (omega arith) (omega arith)

  -- In a valid set of at most `max_size` slots with no tombstones, `set_add` of a member changes nothing and says so.
  set_add_member :
      ((q : ℕ) → slot_at st.items q ≢ deleted)
      → view st.items key ≡ some tt
      → set_add st key ≡ ok (st, false)
  unfolding set_add add_at_depth
  set_add_member fresh e =
      let (p, held) = Holds-view st.items key tt e in rw (held_stops fresh p held)

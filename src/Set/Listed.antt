-- ===== src/Set/Listed.antt =====
-- `set_members` against `set_ismember`.
use hyperkv.Base.{
  ◌≤◌, Bool, false, ◌||◌, List, [], ◌∷◌, ◌≡◌, refl, ◌∙◌, arith, ok, Str, str_eq, length, is_some,
  Bool-cases, inl, inr,
}
use hyperkv.Helper.Hash.{max_size}
use hyperkv.HTable.Valid.{IsValid}
use hyperkv.Set.{StrSet, member_list, set_members, set_ismember}
use hyperkv.Set.Member.{set_ismember-view}
use hyperkv.Slots.{Slot, empty, deleted, item, live}
use hyperkv.Slots.View.{view}

-- Some string of the list is equal.
abbrev pub has : List Str → Str → Bool
has [] q = false
has (s ∷ ss) q = str_eq s q || has ss q

has-member_list :
    (items : List (Slot (Unit {0}))) (q : Str) → has (member_list items) q ≡ is_some (view items q)
unfolding member_list view
has-member_list [] q = refl
has-member_list (empty ∷ items) q = has-member_list items q
has-member_list (deleted ∷ items) q = has-member_list items q
has-member_list (item k tt ∷ items) q = elim (Bool-cases (str_eq k q)) [
  | inl e ↦ rw e refl
  | inr e ↦ rw e (has-member_list items q)
]

length-member_list : (items : List (Slot (Unit {0}))) → length (member_list items) ≡ live items
unfolding member_list live
length-member_list [] = refl
length-member_list (empty ∷ items) = length-member_list items
length-member_list (deleted ∷ items) = length-member_list items
length-member_list (item k v ∷ items) = omega (arith, length-member_list items)

-- On a valid set of at most `max_size` slots, `set_ismember` of a string tells whether `set_members`
-- lists it, and `set_members` has an element for every slot that holds a member, at most `used`.
pub set_ismember-members :
    (st : StrSet)
    → IsValid st
    → st.size ≤ max_size
    → ((q : Str) → set_ismember st q ≡ ok (has (set_members st) q))
      × (length (set_members st) ≡ live st.items)
      × (length (set_members st) ≤ st.used)
unfolding set_members
set_ismember-members st valid small = (
  λ q. set_ismember-view st valid small q ∙ rw (has-member_list st.items q) refl,
  length-member_list st.items,
  omega (arith, length-member_list st.items, valid.counted),
)

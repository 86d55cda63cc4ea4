-- ===== src/Set.antt =====
-- The open-addressing set of src/set.c. A `Set` has the fields of a `HashTable`, and its `char *`
-- members are slots with no value.
pub mod Add
pub mod Member
pub mod Duplicate
pub mod Laws
pub mod Listed
pub mod Safe
use hyperkv.Base.{
  ℕ, zero, suc, ◌+◌, ◌-◌, Bool, true, false, List, [], ◌∷◌, Option, none, some, Run, ok, fault,
  Fault, ◌>>=◌, int, at, Str, str_eq, if◌then◌else◌, set,
}
use hyperkv.Helper.Hash.{hash_func}
use hyperkv.HTable.{HashTable, htable_init, locate_loop, resize_up_by, resize_down_by}
use hyperkv.Slots.{Slot, empty, deleted, item}

abbrev pub StrSet : Type 0
StrSet = HashTable (Unit {0})

unfoldable pub set_init : ℕ → Run StrSet
unfolding htable_init
set_init size = htable_init size

-- The loop of `set_add`: the first slot on the member's path that is free, unless the member stands
-- before it.
pub add_loop : ℕ → ℕ → StrSet → Str → Run (Option ℕ)
add_loop zero i st key = ok none
add_loop (suc rounds) i st key =
    let rest = add_loop rounds (i + 1) st key in
    do
      hash ← hash_func key st.size i
      cur ← at st.items hash
      elim cur [
        | empty ↦ ok (some hash)
        | deleted ↦ ok (some hash)
        | item k v ↦ if str_eq k key then ok none else rest
      ]

-- `set_add` as `set_resize` calls it, which does not look at the flag.
pub only_set : Run (StrSet × Bool) → Run StrSet
only_set r = r >>= λ x. ok x.0

-- `set_add` with a bound on how deep it and `set_resize` call one another.
pub add_at_depth : ℕ → StrSet → Str → Run (StrSet × Bool)
unfolding add_loop resize_up_by only_set
add_at_depth zero st key = fault Fault.out_of_fuel
add_at_depth (suc depth) st key = do
  free ← add_loop st.size 0 st key
  elim free [
    | none ↦ ok (st, false)
    | some hash ↦ do
      used ← int (st.used + 1)
      grown ←
          resize_up_by (λ s k _. only_set (add_at_depth depth s k))
            (record st { used = used; items = set st.items hash (item key tt) })
      ok (grown, true)
  ]

-- The additions of a resize do not resize again.
unfoldable pub set_add : StrSet → Str → Run (StrSet × Bool)
unfolding add_at_depth
set_add = add_at_depth 2

pub set_resize_down : StrSet → Run StrSet
unfolding set_add resize_down_by only_set
set_resize_down = resize_down_by (λ s k _. only_set (set_add s k))

unfoldable pub set_rem : StrSet → Str → Run (StrSet × Bool)
unfolding locate_loop set_resize_down
set_rem st key = do
  found ← locate_loop st.size 0 st key
  elim found [
    | none ↦ ok (st, false)
    | some (hash, _) ↦ do
      st' ← set_resize_down (record st { used = st.used - 1; items = set st.items hash deleted })
      ok (st', true)
  ]

unfoldable pub set_ismember : StrSet → Str → Run Bool
unfolding locate_loop
set_ismember st key = do
  found ← locate_loop st.size 0 st key
  elim found [ none ↦ ok false | some _ ↦ ok true ]

member_list : List (Slot (Unit {0})) → List Str
member_list [] = []
member_list (empty ∷ items) = member_list items
member_list (deleted ∷ items) = member_list items
member_list (item k v ∷ items) = k ∷ member_list items

-- The NULL-terminated array of copies.
unfoldable pub set_members : StrSet → List Str
unfolding member_list
set_members st = member_list st.items

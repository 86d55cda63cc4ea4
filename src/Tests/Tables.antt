-- ===== src/Tests/Tables.antt =====
-- Tables of strings.
use hyperkv.Base.{
  true, none, some, ◌≡◌, ◌≢◌, refl, arith, ok, Returns, Returns-ok, Str, codes, str_eq,
  eq_of_str_eq, subst, Bool-cases, inl, inr, [], ◌∷◌, set, replicate, int, at, if◌then◌else◌, ◌⊎◌,
}
use hyperkv.Helper.Hash.{hash_func, djb2, sdbm, probe}
use hyperkv.Helper.Prime.{is_prime, next_prime}
use hyperkv.HTable.{
  htable_init, htable_search, locate_loop, free_loop, htable_insert, insert_at_depth, htable_del,
  resize_down_by, resize_up_by, resize_by,
}
use hyperkv.HTable.Laws.{fresh-IsValid, htable_insert-IsValid, htable_insert-view, htable_del-view}
use hyperkv.HTable.Resize.{AllMove}
use hyperkv.HTable.Valid.{IsValid}
use hyperkv.Slots.{empty, item, IsItem, slot_at}
use hyperkv.Slots.View.{view}
use hyperkv.Strings.{htable_set, htable_get}
use hyperkv.Strings.Laws.{htable_set-IsValid, htable_get-set, takes_string}
use hyperkv.Strings.Lost.{htable_set-lost}
use hyperkv.Value.{Value, FieldTable, str_t}

abbrev red : Value ⊥
red = str_t (codes "red")

-- Eleven slots, none taken.
abbrev blank : FieldTable
blank = record { size = 11; used = 0; items = replicate 11 empty }

blank-IsValid : IsValid blank
unfolding is_prime
blank-IsValid = fresh-IsValid (Value ⊥) 11 refl

-- "apple" has its home at slot 2.
abbrev one : FieldTable
one = record { size = 11; used = 1; items = set blank.items 2 (item (codes "apple") red) }

one_run : htable_insert blank (codes "apple") red ≡ ok one
unfolding htable_insert insert_at_depth free_loop hash_func djb2 sdbm int at resize_up_by
one_run = refl

apple_absent : view blank.items (codes "apple") ≡ none
unfolding view
apple_absent = refl

one-IsValid : IsValid one
one-IsValid =
    (Returns-ok _
      (htable_insert-IsValid blank blank-IsValid (codes "apple") red (omega arith) apple_absent)
      one_run).0

-- "pear" goes to slot 4.
abbrev two : FieldTable
two = record {
  size = 11;
  used = 2;
  items = set one.items 4 (item (codes "pear") (str_t (codes "green")));
}

two_run : htable_set one (codes "pear") (codes "green") ≡ ok (two, true)
unfolding htable_set htable_search locate_loop htable_insert insert_at_depth free_loop hash_func
    djb2 sdbm int at resize_up_by str_eq
two_run = refl

pear_moves : sdbm (codes "pear") 11 ≢ 0
unfolding sdbm
pear_moves e = omega (arith, e)

pear_absent : view one.items (codes "pear") ≡ none
unfolding view str_eq
pear_absent = refl

htable_get-set_example : htable_get two (codes "apple") ≡ (
    if str_eq (codes "pear") (codes "apple")
    then ok (some (codes "green"))
    else htable_get one (codes "apple"))
htable_get-set_example =
    htable_get-set one one-IsValid (omega arith) (codes "pear") (codes "green") two_run
      (λ _. (pear_moves, λ grown. absurd (grown refl))) (codes "apple")

htable_set-IsValid_example : Returns (htable_set one (codes "pear") (codes "green")) λ r.
    IsValid r.0
    × (r.1 ≡ takes_string (view one.items (codes "pear")))
    × ((r.1 ≡ true) ⊎ (r.0 ≡ one))
    × ((q : Str)
        → (view r.0.items q ≡ (
            if r.1
            then (if str_eq (codes "pear") q
                then some (str_t (codes "green"))
                else view one.items q)
            else view one.items q))
          ⊎ (view r.0.items q ≡ none))
htable_set-IsValid_example =
    htable_set-IsValid one one-IsValid (codes "pear") (omega arith) (codes "green")

htable_get-one : htable_get one (codes "apple") ≡ ok (some (codes "red"))
unfolding htable_get htable_search locate_loop hash_func djb2 sdbm int at str_eq
htable_get-one = refl

abbrev two_red : FieldTable
two_red = record { size = 11; used = 2; items = set one.items 4 (item (codes "pear") red) }

two_red_run : htable_insert one (codes "pear") red ≡ ok two_red
unfolding htable_insert insert_at_depth free_loop hash_func djb2 sdbm int at resize_up_by
two_red_run = refl

htable_insert-view_example :
    view two_red.items (codes "fig")
    ≡ (if str_eq (codes "pear") (codes "fig") then some red else view one.items (codes "fig"))
htable_insert-view_example =
    htable_insert-view one one-IsValid (codes "pear") red (omega arith) pear_absent two_red_run
      pear_moves (λ grown. absurd (grown refl)) (codes "fig")

-- Without "pear" the load is one of eleven, which is 9%: the table shrinks to five slots.
abbrev shrunk : FieldTable
shrunk = record { size = 5; used = 1; items = set (replicate 5 empty) 2 (item (codes "apple") red) }

two_del : htable_del two (codes "pear") ≡ ok (shrunk, true)
unfolding htable_del locate_loop hash_func djb2 sdbm int at str_eq resize_down_by htable_insert
    insert_at_depth free_loop htable_init resize_by next_prime is_prime resize_up_by
two_del = refl

two-IsValid : IsValid two
two-IsValid =
    (Returns-ok _ (htable_set-IsValid one one-IsValid (codes "pear") (omega arith) (codes "green"))
      two_run).0

apple_moves : sdbm (codes "apple") 5 ≢ 0
unfolding sdbm
apple_moves z = omega (arith, z)

pear_moves_5 : sdbm (codes "pear") 5 ≢ 0
unfolding sdbm
pear_moves_5 z = omega (arith, z)

two-AllMove : AllMove two.items 5
unfolding view
two-AllMove q v h = elim (Bool-cases (str_eq (codes "apple") q)) [
  | inl e ↦ subst (λ k. sdbm k 5 ≢ 0) (eq_of_str_eq _ _ e) apple_moves
  | inr e ↦ elim (Bool-cases (str_eq (codes "pear") q)) [
    | inl e' ↦ subst (λ k. sdbm k 5 ≢ 0) (eq_of_str_eq _ _ e') pear_moves_5
    | inr e' ↦ ground (arith)
  ]
]

htable_del-view_example :
    view shrunk.items (codes "apple")
    ≡ (if str_eq (codes "pear") (codes "apple") then none else view two.items (codes "apple"))
htable_del-view_example =
    htable_del-view two two-IsValid (codes "pear") (omega arith) two_del (λ _. two-AllMove)
      (codes "apple")

-- Two slots, "b" in slot 1, which is the home of "d" too; there "d" is stuck.
abbrev pair : FieldTable
pair = record { size = 2; used = 0; items = replicate 2 empty }

abbrev full_home : FieldTable
full_home = record { size = 2; used = 1; items = empty ∷ item (codes "b") red ∷ [] }

full_home_run : htable_insert pair (codes "b") red ≡ ok full_home
unfolding htable_insert insert_at_depth free_loop hash_func djb2 sdbm int at resize_up_by
full_home_run = refl

pair-IsValid : IsValid pair
unfolding is_prime
pair-IsValid = fresh-IsValid (Value ⊥) 2 refl

b_absent : view pair.items (codes "b") ≡ none
unfolding view
b_absent = refl

full_home-IsValid : IsValid full_home
full_home-IsValid =
    (Returns-ok _ (htable_insert-IsValid pair pair-IsValid (codes "b") red (omega arith) b_absent)
      full_home_run).0

d_absent : view full_home.items (codes "d") ≡ none
unfolding view str_eq
d_absent = refl

d_stuck : sdbm (codes "d") 2 ≡ 0
unfolding sdbm
d_stuck = refl

d_taken : IsItem (slot_at full_home.items (probe (codes "d") 2 0))
unfolding probe djb2 sdbm
d_taken = (codes "b", red, refl)

htable_set-lost_example :
    (htable_set full_home (codes "d") (codes "gone") ≡ ok (full_home, true))
    × (htable_get full_home (codes "d") ≡ ok none)
htable_set-lost_example =
    htable_set-lost full_home full_home-IsValid (omega arith) (codes "d") d_absent d_stuck d_taken
      (codes "gone")

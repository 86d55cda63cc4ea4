-- ===== src/Tests/Sets.antt =====
-- Sets of strings.
use hyperkv.Base.{
  ℕ, ◌*◌, ◌≤◌, true, false, none, length, ◌≡◌, ◌≢◌, refl, arith, ok, Returns-ok, Str, codes, [],
  ◌∷◌, str_eq, set, replicate, int, at, if◌then◌else◌, ◌+◌,
}
use hyperkv.Helper.Hash.{hash_func, djb2, sdbm, probe}
use hyperkv.Helper.Prime.{is_prime}
use hyperkv.HTable.{resize_down_by, resize_up_by, locate_loop}
use hyperkv.HTable.Laws.{fresh-IsValid}
use hyperkv.HTable.Valid.{IsValid}
use hyperkv.Set.{StrSet, set_add, set_rem, set_ismember, set_members}
use hyperkv.Set.Add.{set_add-Added}
use hyperkv.Set.Duplicate.{set_add_twice}
use hyperkv.Set.Laws.{set_rem-IsValid, set_ismember-rem}
use hyperkv.Set.Listed.{has, set_ismember-members}
use hyperkv.Slots.{live, empty, deleted, item, slot_at}
use hyperkv.Slots.View.{Holds, view}

abbrev no_fruit : StrSet
no_fruit = record { size = 11; used = 0; items = replicate 11 empty }

abbrev apple : StrSet
apple = record { size = 11; used = 1; items = set no_fruit.items 2 (item (codes "apple") tt) }

abbrev pub apple_pear : StrSet
apple_pear = record { size = 11; used = 2; items = set apple.items 4 (item (codes "pear") tt) }

-- The home of "date" is slot 2 as well; its next attempt is slot 8.
abbrev pub fruit : StrSet
fruit = record { size = 11; used = 3; items = set apple_pear.items 8 (item (codes "date") tt) }

-- "apple" leaves a tombstone.
abbrev without_apple : StrSet
without_apple = record { size = 11; used = 2; items = set fruit.items 2 deleted }

no_fruit-IsValid : IsValid no_fruit
unfolding is_prime
no_fruit-IsValid = fresh-IsValid (Unit {0}) 11 refl

apple_run : set_add no_fruit (codes "apple") ≡ ok (apple, true)
unfolding set_add hash_func djb2 sdbm int at resize_up_by
apple_run = refl

pear_run : set_add apple (codes "pear") ≡ ok (apple_pear, true)
unfolding set_add hash_func djb2 sdbm int at resize_up_by
pear_run = refl

pub date_run : set_add apple_pear (codes "date") ≡ ok (fruit, true)
unfolding set_add hash_func djb2 sdbm int at resize_up_by str_eq
date_run = refl

without_run : set_rem fruit (codes "apple") ≡ ok (without_apple, true)
unfolding set_rem hash_func djb2 sdbm int at resize_down_by str_eq locate_loop
without_run = refl

added-IsValid :
    (st : StrSet) (key : Str) {r : StrSet}
    → IsValid st
    → st.size * 2 ≤ 46337
    → view st.items key ≡ none
    → set_add st key ≡ ok (r, true)
    → IsValid r
added-IsValid st key valid room absent run =
    (Returns-ok _ (set_add-Added st valid room key absent) run).0.valid

apple_absent : view no_fruit.items (codes "apple") ≡ none
unfolding view
apple_absent = refl

pear_absent : view apple.items (codes "pear") ≡ none
unfolding view str_eq
pear_absent = refl

pub date_absent : view apple_pear.items (codes "date") ≡ none
unfolding view str_eq
date_absent = refl

apple-IsValid : IsValid apple
apple-IsValid =
    added-IsValid no_fruit (codes "apple") no_fruit-IsValid (omega arith) apple_absent apple_run

pub apple_pear-IsValid : IsValid apple_pear
apple_pear-IsValid =
    added-IsValid apple (codes "pear") apple-IsValid (omega arith) pear_absent pear_run

fruit-IsValid : IsValid fruit
fruit-IsValid =
    added-IsValid apple_pear (codes "date") apple_pear-IsValid (omega arith) date_absent date_run

without_apple-IsValid : IsValid without_apple
without_apple-IsValid =
    (Returns-ok _ (set_rem-IsValid fruit fruit-IsValid (codes "apple") (omega arith)) without_run).0

set_ismember-rem_example : set_ismember without_apple (codes "date") ≡ (
    if str_eq (codes "apple") (codes "date") then ok false else set_ismember fruit (codes "date"))
set_ismember-rem_example =
    set_ismember-rem fruit fruit-IsValid (codes "apple") (omega arith) without_run
      (λ sparse. absurd (omega (arith, sparse))) (codes "date")

pub date_moves : sdbm (codes "date") 11 ≢ 0
unfolding sdbm
date_moves z = omega (arith, z)

tombstone : slot_at without_apple.items (probe (codes "date") 11 0) ≡ deleted
unfolding probe djb2 sdbm
tombstone = refl

set_add_twice_example :
    (r : StrSet) × (set_add without_apple (codes "date") ≡ ok (r, true))
    × (r.used ≡ without_apple.used + 1)
    × (q : ℕ) × (q ≢ 8)
    × Holds r.items 8 (codes "date") tt
    × Holds r.items q (codes "date") tt
set_add_twice_example =
    set_add_twice without_apple without_apple-IsValid (omega arith) (codes "date") 0 (omega arith)
      tombstone (λ j low. absurd (omega (arith, low))) 8 refl (omega arith)

members_twice :
    (r : StrSet) × (set_add without_apple (codes "date") ≡ ok (r, true))
    × (set_members r ≡ codes "date" ∷ codes "pear" ∷ codes "date" ∷ [])
unfolding set_add hash_func djb2 sdbm int at resize_up_by str_eq set_members
members_twice = (_, refl, refl)

set_ismember-members_example :
    ((q : Str) → set_ismember fruit q ≡ ok (has (set_members fruit) q))
    × (length (set_members fruit) ≡ live fruit.items)
    × (length (set_members fruit) ≤ fruit.used)
set_ismember-members_example = set_ismember-members fruit fruit-IsValid (omega arith)

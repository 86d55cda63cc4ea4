-- ===== src/Tests/Singles.antt =====
-- Keys whose objects lose their last value, field or member.
use hyperkv.Base.{
  true, none, some, ◌≡◌, refl, arith, ok, Returns, Returns-ok, codes, str_eq, set, replicate, int,
  at,
}
use hyperkv.Helper.Hash.{hash_func, djb2, sdbm}
use hyperkv.Helper.Prime.{is_prime}
use hyperkv.HTable.{htable_insert, insert_at_depth, free_loop, resize_up_by}
use hyperkv.HTable.Laws.{fresh-IsValid, htable_insert-IsValid}
use hyperkv.HTable.Valid.{IsValid}
use hyperkv.Objects.Hashes.{htable_hdel}
use hyperkv.Objects.Last.{Gone, pop-Gone, hdel-Gone, srem-Gone}
use hyperkv.Objects.Lists.{ListDirection, htable_pop}
use hyperkv.Objects.Sets.{htable_srem}
use hyperkv.Set.{StrSet}
use hyperkv.Slots.{empty, item}
use hyperkv.Slots.View.{view}
use hyperkv.Value.{hash_t, str_t, set_t, Store, list_t}
use hyperkv.Tests.Keyed.{apple, listed, one_field, one_field-IsValid, apple-IsSeq, listed-IsValid}

abbrev no_members : StrSet
no_members = record { size = 11; used = 0; items = replicate 11 empty }

abbrev one_member : StrSet
one_member = record {
  size = 11;
  used = 1;
  items = set (replicate 11 empty) 2 (item (codes "apple") tt);
}

-- "fig" holds a list of one value, "a" a hash of one field and "date" a set of one member.
abbrev two_objects : Store
two_objects = record {
  size = 11;
  used = 2;
  items = set listed.items 9 (item (codes "a") (hash_t one_field));
}

abbrev singles : Store
singles = record {
  size = 11;
  used = 3;
  items = set two_objects.items 2 (item (codes "date") (set_t one_member));
}

free_a : view listed.items (codes "a") ≡ none
unfolding view str_eq
free_a = refl

free_date : view two_objects.items (codes "date") ≡ none
unfolding view str_eq
free_date = refl

two_objects_run : htable_insert listed (codes "a") (hash_t one_field) ≡ ok two_objects
unfolding htable_insert insert_at_depth free_loop hash_func djb2 sdbm int at resize_up_by
two_objects_run = refl

singles_run : htable_insert two_objects (codes "date") (set_t one_member) ≡ ok singles
unfolding htable_insert insert_at_depth free_loop hash_func djb2 sdbm int at resize_up_by
singles_run = refl

two_objects-IsValid : IsValid two_objects
two_objects-IsValid =
    (Returns-ok _
      (htable_insert-IsValid listed listed-IsValid (codes "a") (hash_t one_field) (omega arith)
        free_a)
      two_objects_run).0

singles-IsValid : IsValid singles
singles-IsValid =
    (Returns-ok _
      (htable_insert-IsValid two_objects two_objects-IsValid (codes "date") (set_t one_member)
        (omega arith) free_date)
      singles_run).0

single_list : view singles.items (codes "fig") ≡ some (list_t apple)
unfolding view str_eq
single_list = refl

single_hash : view singles.items (codes "a") ≡ some (hash_t one_field)
unfolding view str_eq
single_hash = refl

single_set : view singles.items (codes "date") ≡ some (set_t one_member)
unfolding view str_eq
single_set = refl

field_there : view one_field.items (codes "a") ≡ some (str_t (codes "1"))
unfolding view str_eq
field_there = refl

no_apple : view no_members.items (codes "apple") ≡ none
unfolding view
no_apple = refl

apple_there : view one_member.items (codes "apple") ≡ some tt
unfolding view str_eq
apple_there = refl

no_members-IsValid : IsValid no_members
unfolding is_prime
no_members-IsValid = fresh-IsValid Unit 11 refl

one_member_run : htable_insert no_members (codes "apple") tt ≡ ok one_member
unfolding htable_insert insert_at_depth free_loop resize_up_by hash_func djb2 sdbm int at
one_member_run = refl

one_member-IsValid : IsValid one_member
one_member-IsValid =
    (Returns-ok _
      (htable_insert-IsValid no_members no_members-IsValid (codes "apple") tt (omega arith)
        no_apple)
      one_member_run).0

pop-Gone_example :
    Returns
      (htable_pop singles (codes "fig") ListDirection.left)
      λ r. Gone singles (codes "fig") r.0 × (r.1 ≡ some (codes "apple"))
pop-Gone_example =
    pop-Gone singles singles-IsValid (omega arith) (codes "fig") apple single_list (codes "apple")
      apple-IsSeq ListDirection.left

hdel-Gone_example :
    Returns
      (htable_hdel singles (codes "a") (codes "a"))
      λ r. Gone singles (codes "a") r.0 × (r.1 ≡ true)
hdel-Gone_example =
    hdel-Gone singles singles-IsValid (omega arith) (codes "a") one_field single_hash
      one_field-IsValid (omega arith) refl (codes "a") field_there

srem-Gone_example :
    Returns
      (htable_srem singles (codes "date") (codes "apple"))
      λ r. Gone singles (codes "date") r.0 × (r.1 ≡ true)
srem-Gone_example =
    srem-Gone singles singles-IsValid (omega arith) (codes "date") one_member single_set
      one_member-IsValid (omega arith) refl (codes "apple") apple_there

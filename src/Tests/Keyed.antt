-- ===== src/Tests/Keyed.antt =====
-- Tables with a list, a hash and a set under a key.
use hyperkv.Base.{
  Bool, sym, ap, ◌∙◌, ok-injective, true, ◌≢◌, [], ◌∷◌, none, some, ◌≡◌, refl, arith, ok, ◌>>=◌,
  Returns, Returns-ok, Str, codes, str_eq, set, replicate, int, at, ◌==◌, if◌then◌else◌,
}
use hyperkv.Helper.Hash.{hash_func, djb2, sdbm}
use hyperkv.Helper.Prime.{is_prime}
use hyperkv.HTable.{
  htable_insert, insert_at_depth, free_loop, resize_up_by, htable_search, locate_loop,
}
use hyperkv.HTable.Laws.{fresh-IsValid, htable_insert-IsValid}
use hyperkv.HTable.Valid.{IsValid}
use hyperkv.List.{node, LinkedList}
use hyperkv.List.Seq.{IsSeq}
use hyperkv.Objects.Hashes.{htable_hset, htable_hget}
use hyperkv.Objects.Hashes.Laws.{htable_hget-hset}
use hyperkv.Objects.Lists.{ListDirection, htable_push, htable_pop}
use hyperkv.Objects.Lists.Laws.{htable_pop-push}
use hyperkv.Objects.Sets.{htable_sadd, htable_sismember}
use hyperkv.Objects.Sets.Laws.{htable_sismember-sadd}
use hyperkv.Helper.Hash.{sdbm}
use hyperkv.HTable.Resize.{AllMove}
use hyperkv.Set.{StrSet, set_add}
use hyperkv.Slots.{empty, item}
use hyperkv.Slots.View.{view}
use hyperkv.Strings.{htable_set}
use hyperkv.Strings.Laws.{htable_set-IsValid}
use hyperkv.Tests.Sets.{apple_pear, apple_pear-IsValid, date_absent, date_moves, date_run}
use hyperkv.Value.{str_t, hash_t, set_t, Store, Value, FieldTable, list_t}

abbrev pub apple : LinkedList
apple = record {
  len = 1;
  head = some 0;
  tail = some 0;
  node_at = λ p. if p == 0 then some (node (codes "apple") none none) else none;
  fresh = 1;
}

pub apple-IsSeq : IsSeq apple (codes "apple" ∷ [])
apple-IsSeq = record {
  addresses = 0 ∷ [];
  linked = (refl, tt);
  apart = (tt, tt);
  below = (omega arith, tt);
  head = refl;
  tail = refl;
  len = refl;
}

abbrev bare : Store
bare = record { size = 11; used = 0; items = replicate 11 empty }

abbrev pub listed : Store
listed = record {
  size = 11;
  used = 1;
  items = set bare.items 4 (item (codes "fig") (list_t apple));
}

bare-IsValid : IsValid bare
unfolding is_prime
bare-IsValid = fresh-IsValid (Value FieldTable) 11 refl

free_fig : view bare.items (codes "fig") ≡ none
unfolding view
free_fig = refl

listed_run : htable_insert bare (codes "fig") (list_t apple) ≡ ok listed
unfolding htable_insert insert_at_depth free_loop hash_func djb2 sdbm int at resize_up_by
listed_run = refl

pub listed-IsValid : IsValid listed
listed-IsValid =
    (Returns-ok _
      (htable_insert-IsValid bare bare-IsValid (codes "fig") (list_t apple) (omega arith) free_fig)
      listed_run).0

holds_fig : view listed.items (codes "fig") ≡ some (list_t apple)
unfolding view str_eq
holds_fig = refl

htable_pop-push_example :
    Returns
      (htable_push listed (codes "fig") (codes "pear") ListDirection.right >>= λ r.
        htable_pop r.0 (codes "fig") ListDirection.right)
      λ r.
        IsValid r.0
        × (r.1 ≡ some (codes "pear"))
        × (ls' : LinkedList) × IsSeq ls' (codes "apple" ∷ [])
        × ((q : Str)
            → view r.0.items q
              ≡ (if str_eq (codes "fig") q then some (list_t ls') else view listed.items q))
htable_pop-push_example =
    htable_pop-push listed listed-IsValid (omega arith) (codes "fig") apple holds_fig
      (codes "apple") [] apple-IsSeq (codes "pear") ListDirection.right (omega arith)

abbrev no_fields : FieldTable
no_fields = record { size = 11; used = 0; items = replicate 11 empty }

abbrev pub one_field : FieldTable
one_field = record {
  size = 11;
  used = 1;
  items = set (replicate 11 empty) 9 (item (codes "a") (str_t (codes "1")));
}

no_fields-IsValid : IsValid no_fields
unfolding is_prime
no_fields-IsValid = fresh-IsValid (Value ⊥) 11 refl

abbrev hashed : Store
hashed = record {
  size = 11;
  used = 1;
  items = set bare.items 4 (item (codes "fig") (hash_t no_fields));
}

hashed_run : htable_insert bare (codes "fig") (hash_t no_fields) ≡ ok hashed
unfolding htable_insert insert_at_depth free_loop hash_func djb2 sdbm int at resize_up_by
hashed_run = refl

hashed-IsValid : IsValid hashed
hashed-IsValid =
    (Returns-ok _
      (htable_insert-IsValid bare bare-IsValid (codes "fig") (hash_t no_fields) (omega arith)
        free_fig)
      hashed_run).0

holds_hash : view hashed.items (codes "fig") ≡ some (hash_t no_fields)
unfolding view str_eq
holds_hash = refl

accepts_a : htable_set no_fields (codes "a") (codes "1") ≡ ok (one_field, true)
unfolding htable_set htable_search locate_loop htable_insert insert_at_depth free_loop hash_func
    djb2 sdbm int at resize_up_by
accepts_a = refl

pub one_field-IsValid : IsValid one_field
one_field-IsValid =
    (Returns-ok _
      (htable_set-IsValid no_fields no_fields-IsValid (codes "a") (omega arith) (codes "1"))
      accepts_a).0

a_moves : sdbm (codes "a") 11 ≢ 0
unfolding sdbm
a_moves z = omega (arith, z)

htable_hget-hset_example : Returns (htable_hset hashed (codes "fig") (codes "a") (codes "1")) λ r.
    IsValid r.0
    × (r.1 ≡ true)
    × ((f : Str)
        → htable_hget r.0 (codes "fig") f ≡ (
            if str_eq (codes "a") f
            then ok (some (codes "1"))
            else htable_hget hashed (codes "fig") f))
    × ((q : Str)
        → view r.0.items q
          ≡ (if str_eq (codes "fig") q then some (hash_t one_field) else view hashed.items q))
htable_hget-hset_example =
    htable_hget-hset hashed hashed-IsValid (omega arith) (codes "fig") no_fields one_field
      holds_hash no_fields-IsValid (omega arith) (codes "a") (codes "1") accepts_a
      (λ _. (a_moves, λ grown. absurd (grown refl)))

abbrev fruits : Store
fruits = record {
  size = 11;
  used = 1;
  items = set bare.items 4 (item (codes "fig") (set_t apple_pear));
}

fruits_run : htable_insert bare (codes "fig") (set_t apple_pear) ≡ ok fruits
unfolding htable_insert insert_at_depth free_loop hash_func djb2 sdbm int at resize_up_by
fruits_run = refl

fruits-IsValid : IsValid fruits
fruits-IsValid =
    (Returns-ok _
      (htable_insert-IsValid bare bare-IsValid (codes "fig") (set_t apple_pear) (omega arith)
        free_fig)
      fruits_run).0

holds_set : view fruits.items (codes "fig") ≡ some (set_t apple_pear)
unfolding view str_eq
holds_set = refl

date_grows :
    (st' : StrSet) (added : Bool)
    → set_add apple_pear (codes "date") ≡ ok (st', added)
    → st'.size ≢ apple_pear.size
    → AllMove apple_pear.items st'.size × (sdbm (codes "date") st'.size ≢ 0)
date_grows st' added adds grown =
    absurd (grown (sym (ap (λ r. r.0.size) (ok-injective (sym date_run ∙ adds)))))

htable_sismember-sadd_example :
    (st' : StrSet) × (set_add apple_pear (codes "date") ≡ ok (st', true))
    × (Returns (htable_sadd fruits (codes "fig") (codes "date")) λ r.
        (r.1 ≡ true)
        × IsValid r.0
        × ((q : Str)
            → htable_sismember r.0 (codes "fig") q ≡ (
                if str_eq (codes "date") q
                then ok true
                else htable_sismember fruits (codes "fig") q))
        × ((k : Str)
            → view r.0.items k
              ≡ (if str_eq (codes "fig") k then some (set_t st') else view fruits.items k)))
htable_sismember-sadd_example =
    htable_sismember-sadd fruits fruits-IsValid (omega arith) (codes "fig") apple_pear holds_set
      (codes "date") apple_pear-IsValid (omega arith) date_absent date_moves date_grows

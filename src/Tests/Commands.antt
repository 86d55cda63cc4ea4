-- ===== src/Tests/Commands.antt =====
-- Commands on concrete tables.
use hyperkv.Base.{
  true, false, [], ◌∷◌, pos, negsuc, ◌+ℤ◌, ◌-ℤ◌, none, some, ◌≡◌, ◌≢◌, refl, sym, ap, ok-injective,
  arith, ok, fault, Fault, Returns, Returns-ok, codes, str_eq, set, replicate, int, at, length,
}
use hyperkv.Commands.Keys.{exec_exists, exec_type}
use hyperkv.Commands.Keys.Laws.{held_count, exec_exists-count}
use hyperkv.Commands.Numbers.{exec_incr, exec_incrby, exec_decrby}
use hyperkv.Commands.Numbers.Laws.{
  Counts, exec_incr-Counts, incrby-decrby-Counts, exec_decrby-Counts,
}
use hyperkv.Commands.Strings.{exec_set, exec_get, exec_strlen, exec_mget, exec_mset}
use hyperkv.Commands.Strings.Laws.{exec_get-set, exec_set-refused, exec_mget-confused}
use hyperkv.Helper.Hash.{hash_func, djb2, sdbm}
use hyperkv.Helper.Number.{print_int}
use hyperkv.Helper.Prime.{is_prime}
use hyperkv.HTable.{
  htable_insert, insert_at_depth, free_loop, resize_up_by, htable_search, locate_loop,
}
use hyperkv.HTable.Laws.{fresh-IsValid, htable_insert-IsValid}
use hyperkv.HTable.Valid.{IsValid}
use hyperkv.Interpreter.{interpret}
use hyperkv.Interpreter.Dispatch.{handler, interpret-handler}
use hyperkv.List.{list_init}
use hyperkv.Parser.{CommandType, Command}
use hyperkv.Reply.{reply_string, reply_integer, reply_err_type}
use hyperkv.Slots.{empty, item}
use hyperkv.Slots.View.{view}
use hyperkv.Strings.{htable_set}
use hyperkv.Strings.Laws.{takes_string}
use hyperkv.Value.{Store, Value, FieldTable, str_t, list_t}

abbrev blank : Store
blank = record { size = 11; used = 0; items = replicate 11 empty }

abbrev forty_one : Value FieldTable
forty_one = str_t (print_int (pos 41))

-- "a" holds 41.
abbrev pub counter : Store
counter = record { size = 11; used = 1; items = set blank.items 9 (item (codes "a") forty_one) }

-- And "fig" a list.
abbrev pub mixed : Store
mixed = record {
  size = 11;
  used = 2;
  items = set counter.items 4 (item (codes "fig") (list_t list_init));
}

-- "date" has been set to 7.
abbrev pub dated : Store
dated = record {
  size = 11;
  used = 2;
  items = set counter.items 2 (item (codes "date") (str_t (codes "7")));
}

blank-IsValid : IsValid blank
unfolding is_prime
blank-IsValid = fresh-IsValid (Value FieldTable) 11 refl

absent_a : view blank.items (codes "a") ≡ none
unfolding view
absent_a = refl

counter_run : htable_insert blank (codes "a") forty_one ≡ ok counter
unfolding htable_insert insert_at_depth free_loop hash_func djb2 sdbm int at resize_up_by
counter_run = refl

pub counter-IsValid : IsValid counter
counter-IsValid =
    (Returns-ok _
      (htable_insert-IsValid blank blank-IsValid (codes "a") forty_one (omega arith) absent_a)
      counter_run).0

holds_a : view counter.items (codes "a") ≡ some (str_t (print_int (pos 41)))
unfolding view str_eq
holds_a = refl

absent_fig : view counter.items (codes "fig") ≡ none
unfolding view str_eq
absent_fig = refl

absent_date : view counter.items (codes "date") ≡ none
unfolding view str_eq
absent_date = refl

mixed_run : htable_insert counter (codes "fig") (list_t list_init) ≡ ok mixed
unfolding htable_insert insert_at_depth free_loop hash_func djb2 sdbm int at resize_up_by
mixed_run = refl

pub mixed-IsValid : IsValid mixed
mixed-IsValid =
    (Returns-ok _
      (htable_insert-IsValid counter counter-IsValid (codes "fig") (list_t list_init) (omega arith)
        absent_fig)
      mixed_run).0

exec_incr-Counts_example :
    Returns (exec_incr counter (codes "a" ∷ [])) λ r.
      Counts counter (codes "a") (pos 41 +ℤ pos 1) r.0 × (r.1 ≡ reply_integer (pos 41 +ℤ pos 1))
unfolding ◌+ℤ◌
exec_incr-Counts_example =
    exec_incr-Counts counter counter-IsValid (omega arith) (codes "a") (pos 41)
      (omega arith, omega arith) holds_a (omega arith, omega arith)

incrby-decrby-Counts_example :
    (Returns (exec_incrby counter (codes "a" ∷ print_int (negsuc 49) ∷ [])) λ r.
      Counts counter (codes "a") (pos 41 +ℤ negsuc 49) r.0
      × (r.1 ≡ reply_integer (pos 41 +ℤ negsuc 49)))
    × (Returns (exec_decrby counter (codes "a" ∷ print_int (negsuc 49) ∷ [])) λ r.
        Counts counter (codes "a") (pos 41 -ℤ negsuc 49) r.0
        × (r.1 ≡ reply_integer (pos 41 -ℤ negsuc 49)))
unfolding ◌+ℤ◌ ◌-ℤ◌
incrby-decrby-Counts_example =
    incrby-decrby-Counts counter counter-IsValid (omega arith) (codes "a") (pos 41)
      (omega arith, omega arith) holds_a (negsuc 49) (omega arith, omega arith)
      (omega arith, omega arith) (omega arith, omega arith)

fig_moves : sdbm (codes "fig") 11 ≢ 0
unfolding sdbm
fig_moves z = omega (arith, z)

fig_run :
    {r : Store}
    → htable_set counter (codes "fig") (print_int (negsuc 4)) ≡ ok (r, true)
    → r.size ≡ 11
unfolding htable_set htable_search locate_loop htable_insert insert_at_depth free_loop hash_func
    djb2 sdbm int at resize_up_by str_eq
fig_run e = sym (ap (λ r. r.0.size) (ok-injective e))

exec_decrby-Counts_example :
    (Returns
      (exec_incrby counter (codes "fig" ∷ print_int (negsuc 4) ∷ []))
      λ r. Counts counter (codes "fig") (negsuc 4) r.0 × (r.1 ≡ reply_integer (negsuc 4)))
    × (Returns
        (exec_decrby counter (codes "fig" ∷ print_int (negsuc 4) ∷ []))
        λ r. Counts counter (codes "fig") (negsuc 4) r.0 × (r.1 ≡ reply_integer (negsuc 4)))
exec_decrby-Counts_example =
    exec_decrby-Counts counter counter-IsValid (omega arith) (codes "fig") absent_fig (negsuc 4)
      (omega arith, omega arith) (λ r run. (fig_moves, λ grown. absurd (grown (fig_run run))))

pub date_run :
    exec_set counter (codes "date" ∷ codes "7" ∷ []) ≡ ok (dated, reply_string (some (codes "OK")))
unfolding exec_set htable_set htable_search locate_loop htable_insert insert_at_depth free_loop
    hash_func djb2 sdbm int at resize_up_by str_eq
date_run = refl

pub date_moves : sdbm (codes "date") 11 ≢ 0
unfolding sdbm
date_moves z = omega (arith, z)

pub date_free : takes_string (view counter.items (codes "date")) ≡ true
unfolding view str_eq
date_free = refl

exec_get-set_example :
    (reply_string (some (codes "OK")) ≡ reply_string (some (codes "OK")))
    × (exec_get dated (codes "date" ∷ []) ≡ ok (dated, reply_string (some (codes "7"))))
    × (exec_strlen dated (codes "date" ∷ []) ≡ ok (dated, reply_integer (pos (length (codes "7")))))
exec_get-set_example =
    exec_get-set counter counter-IsValid (omega arith) (codes "date") (codes "7") date_free date_run
      (λ _. (date_moves, λ grown. absurd (grown refl)))

fig_other : takes_string (view mixed.items (codes "fig")) ≡ false
unfolding view str_eq
fig_other = refl

a_string : takes_string (view mixed.items (codes "a")) ≡ true
unfolding view str_eq
a_string = refl

exec_mget-confused_example :
    exec_mget mixed (codes "a" ∷ codes "fig" ∷ []) ≡ fault Fault.type_confusion
exec_mget-confused_example =
    exec_mget-confused mixed mixed-IsValid (omega arith) (codes "a") a_string (codes "fig")
      fig_other

abbrev get_a : Command
get_a = record { type = CommandType.get; argv = codes "a" ∷ [] }

interpret-handler_example : interpret counter get_a ≡ handler get_a.type counter get_a.argv
interpret-handler_example = interpret-handler counter get_a

exec_set-refused_example :
    (exec_set mixed (codes "fig" ∷ codes "7" ∷ []) ≡ ok (mixed, reply_string (some (codes "OK"))))
    × (exec_mset mixed (codes "fig" ∷ codes "7" ∷ [])
        ≡ ok (mixed, reply_string (some (codes "OK"))))
    × (exec_get mixed (codes "fig" ∷ []) ≡ ok (mixed, reply_err_type))
exec_set-refused_example =
    exec_set-refused mixed mixed-IsValid (omega arith) (codes "fig") (codes "7") fig_other

exec_exists-count_example :
    (exec_exists mixed (codes "fig" ∷ codes "pear" ∷ codes "fig" ∷ [])
      ≡ ok (
        mixed,
        reply_integer
            (pos (held_count mixed.items (codes "fig" ∷ codes "pear" ∷ codes "fig" ∷ []))),
      ))
    × (exec_type mixed (codes "fig" ∷ []) ≡ ok (mixed, reply_string (some (codes "list"))))
unfolding view str_eq
exec_exists-count_example =
    exec_exists-count mixed mixed-IsValid (omega arith) (codes "fig")
      (codes "pear" ∷ codes "fig" ∷ [])

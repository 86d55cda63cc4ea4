-- ===== src/Commands/Strings/Laws.antt =====
-- `exec_get` after `exec_set`, keys of other types, and `exec_mget`.
use hyperkv.Base.{
  arith, sym, ap, inl, inr, ◌≤◌, true, false, [], ◌∷◌, pos, none, some, ◌≡◌, refl, ◌∙◌, ok, fault,
  Fault, Returns, Returns-ok, Str, codes, str_eq_refl, subst, List, length, Option,
}
use hyperkv.Commands.{Result}
use hyperkv.Commands.Numbers.{exec_incr, exec_decr, exec_incrby, exec_decrby}
use hyperkv.Commands.Strings.{exec_set, exec_get, exec_strlen, exec_mget, exec_mset, mset_loop}
use hyperkv.Commands.Typed.{with_type_string, with_type_rejected}
use hyperkv.Helper.Hash.{max_size}
use hyperkv.HTable.Valid.{IsValid, HasRoom}
use hyperkv.Reply.{reply_string, reply_integer, reply_err_type}
use hyperkv.Slots.View.{view}
use hyperkv.Strings.{htable_get, htable_set}
use hyperkv.Strings.Laws.{
  Written, htable_set-Written, htable_get-view, takes_string, read_string, NoneStuck,
}
use hyperkv.Value.{Store, Value, FieldTable, str_t, hash_t, list_t, set_t}

module _ (ht : Store) (valid : IsValid ht) (room : HasRoom ht) (key value : Str)
    (takes : takes_string (view ht.items key) ≡ true) where
  abbrev Accepted : Store × Str → Type 0
  Accepted z = Written ht key value (z.0, true) × (z.1 ≡ reply_string (some (codes "OK")))

  exec_set-Accepted : Returns (exec_set ht (key ∷ value ∷ [])) Accepted
  unfolding exec_set
  exec_set-Accepted =
      let ((r, flag), run, w) = htable_set-Written ht valid key room value in
      let accepted : flag ≡ true = w.flag ∙ takes in
      (
        (r, reply_string (some (codes "OK"))),
        rw run refl,
        (subst (λ b. Written ht key value (r, b)) accepted w, refl),
      )

  -- On a valid table with room to grow, where the key is free or holds a string, `exec_set` of a value
  -- replies OK, and on the table that it leaves `exec_get` replies the value and `exec_strlen` its
  -- length, provided that a new key is not stuck at its home and that no key is stuck in an array
  -- that has grown.
  pub exec_get-set :
      {r : Store} {reply : Str}
      → exec_set ht (key ∷ value ∷ []) ≡ ok (r, reply)
      → (view ht.items key ≡ none → NoneStuck ht key r)
      → (reply ≡ reply_string (some (codes "OK")))
        × (exec_get r (key ∷ []) ≡ ok (r, reply_string (some value)))
        × (exec_strlen r (key ∷ []) ≡ ok (r, reply_integer (pos (length value))))
  unfolding exec_get exec_strlen
  exec_get-set {r} {reply} run moves =
      let (w, replied) = Returns-ok Accepted exec_set-Accepted run in
      let holds : view r.items key ≡ some (str_t value) =
        w.views refl moves key ∙ rw (str_eq_refl key) refl in
      let reads : htable_get r key ≡ ok (some value) =
        htable_get-view r w.valid key w.small ∙ rw holds refl in
      let pass = with_type_string r w.valid w.small key in
      (replied, pass _ (rw holds refl) ∙ rw reads refl, pass _ (rw holds refl) ∙ rw reads refl)

module _ (ht : Store) (valid : IsValid ht) (room : HasRoom ht) (key value : Str)
    (other : takes_string (view ht.items key) ≡ false) where
  htable_set-refused : htable_set ht key value ≡ ok (ht, false)
  htable_set-refused =
      let ((r, flag), run, w) = htable_set-Written ht valid key room value in
      let no : flag ≡ false = w.flag ∙ other in
      elim w.rejected [
        | inl stored ↦ absurd (let clash : true ≡ false = sym stored ∙ no in cc)
        | inr same ↦ run ∙ (ap (λ b. ok (r, b)) no ∙ ap (λ t. ok (t, false)) same)
      ]

  -- On a valid table with room to grow, where a key holds a hash, a list or a set, `exec_set` and
  -- `exec_mset` of a value change nothing and reply OK all the same, and `exec_get` then replies that
  -- the type is wrong.
  pub exec_set-refused :
      (exec_set ht (key ∷ value ∷ []) ≡ ok (ht, reply_string (some (codes "OK"))))
      × (exec_mset ht (key ∷ value ∷ []) ≡ ok (ht, reply_string (some (codes "OK"))))
      × (exec_get ht (key ∷ []) ≡ ok (ht, reply_err_type))
  unfolding exec_set exec_mset exec_get mset_loop
  exec_set-refused = (
    rw htable_set-refused refl,
    rw htable_set-refused refl,
    with_type_rejected ht valid (omega arith) key _ other,
  )

readable :
    (held : Option (Value FieldTable))
    → takes_string held ≡ true
    → (value : Option Str) × (read_string held ≡ ok value)
readable none t = (none, refl)
readable (some (str_t s)) t = (some s, refl)
readable (some (hash_t h)) t = cc
readable (some (list_t l)) t = cc
readable (some (set_t m)) t = cc

confused :
    (held : Option (Value FieldTable))
    → takes_string held ≡ false
    → read_string held ≡ fault Fault.type_confusion
confused none t = cc
confused (some (str_t s)) t = cc
confused (some (hash_t h)) t = refl
confused (some (list_t l)) t = refl
confused (some (set_t m)) t = refl

module _ (ht : Store) (valid : IsValid ht) (small : ht.size ≤ max_size) (key : Str) where
  -- On a valid table of at most `max_size` slots, where a key holds a hash, a list or a set, each
  -- command on strings that tests the key's type refuses it and leaves the table as it is.
  wrong_type :
      takes_string (view ht.items key) ≡ false
      → (amount : Str)
      → (exec_get ht (key ∷ []) ≡ ok (ht, reply_err_type))
        × (exec_strlen ht (key ∷ []) ≡ ok (ht, reply_err_type))
        × (exec_incr ht (key ∷ []) ≡ ok (ht, reply_err_type))
        × (exec_decr ht (key ∷ []) ≡ ok (ht, reply_err_type))
        × (exec_incrby ht (key ∷ amount ∷ []) ≡ ok (ht, reply_err_type))
        × (exec_decrby ht (key ∷ amount ∷ []) ≡ ok (ht, reply_err_type))
        × ((argv : List Str) → exec_mget ht (key ∷ argv) ≡ ok (ht, reply_err_type))
  unfolding exec_get exec_strlen exec_incr exec_decr exec_incrby exec_decrby exec_mget
  wrong_type other amount =
      let refused = λ (body : Result). with_type_rejected ht valid small key body other in
      (refused _, refused _, refused _, refused _, refused _, refused _, λ argv. refused _)

  -- `exec_mget` of a free or string key and then of a key that holds a hash, a list or a set reads
  -- that object as text.
  pub exec_mget-confused :
      takes_string (view ht.items key) ≡ true
      → (other : Str) → takes_string (view ht.items other) ≡ false
      → exec_mget ht (key ∷ other ∷ []) ≡ fault Fault.type_confusion
  unfolding exec_mget
  exec_mget-confused takes other wrong =
      let (value, first) = readable (view ht.items key) takes in
      with_type_string ht valid small key _ takes
      ∙ rw
          (
            htable_get-view ht valid key small,
            first,
            htable_get-view ht valid other small,
            confused (view ht.items other) wrong,
          )
          refl

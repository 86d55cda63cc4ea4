-- ===== src/Commands/Keys/Laws.antt =====
-- `exists` and `type` in terms of what the table holds.
use hyperkv.Base.{
  ℕ, ◌+◌, ◌≤◌, List, [], ◌∷◌, pos, Option, none, some, codes, ◌≡◌, refl, ap, ◌∙◌, arith, ok, Str,
  is_some,
}
use hyperkv.Commands.Keys.{to_int, exists_loop, exec_exists, exec_type}
use hyperkv.Helper.Hash.{max_size}
use hyperkv.HTable.Laws.{htable_exists-view}
use hyperkv.HTable.Valid.{IsValid}
use hyperkv.Objects.Types.{htable_type-view, type_of}
use hyperkv.Reply.{reply_integer, reply_string}
use hyperkv.Slots.{Slot}
use hyperkv.Slots.View.{view}
use hyperkv.Value.{Store, Value, FieldTable, str_t, hash_t, list_t, set_t}

-- How many of the keys are held, each as often as it is named.
abbrev pub held_count : List (Slot (Value FieldTable)) → List Str → ℕ
held_count items [] = 0
held_count items (key ∷ keys) = to_int (is_some (view items key)) + held_count items keys

-- The word that `exec_type` replies for what a key holds.
abbrev pub type_word : Option (Value FieldTable) → Str
type_word none = codes "none"
type_word (some (str_t s)) = codes "string"
type_word (some (hash_t h)) = codes "hash"
type_word (some (list_t l)) = codes "list"
type_word (some (set_t st)) = codes "set"

type_of-word : (held : Option (Value FieldTable)) → type_of held ≡ type_word held
type_of-word none = refl
type_of-word (some (str_t s)) = refl
type_of-word (some (hash_t h)) = refl
type_of-word (some (list_t l)) = refl
type_of-word (some (set_t st)) = refl

module _ (ht : Store) (valid : IsValid ht) (small : ht.size ≤ max_size) where
  exists_loop-count :
      (keys : List Str) (oks : ℕ) → exists_loop ht keys oks ≡ ok (oks + held_count ht.items keys)
  unfolding exists_loop
  exists_loop-count [] oks = ap ok (omega arith)
  exists_loop-count (key ∷ keys) oks =
      let found = to_int (is_some (view ht.items key)) in
      rw (htable_exists-view ht valid small key)
        (exists_loop-count keys (oks + found) ∙ ap ok (omega arith))

  -- On a valid table of at most `max_size` slots `exec_exists` replies how many of the keys the table
  -- holds, each as often as it is named, `exec_type` of a key "none" where it
  -- is free and "string", "hash", "list" or "set" after what it holds, and both leave the table as it
  -- is.
  pub exec_exists-count :
      (key : Str) (keys : List Str)
      → (exec_exists ht (key ∷ keys)
          ≡ ok (ht, reply_integer (pos (held_count ht.items (key ∷ keys)))))
        × (exec_type ht (key ∷ []) ≡ ok (ht, reply_string (some (type_word (view ht.items key)))))
  unfolding exec_exists exec_type
  exec_exists-count key keys =
      let count = held_count ht.items (key ∷ keys) in
      (
        (let none_yet : 0 + count ≡ count = omega arith in
            rw (exists_loop-count (key ∷ keys) 0)
              (ap (λ n. ok (ht, reply_integer (pos n))) none_yet)),
        rw (htable_type-view ht valid small key)
            (ap (λ t. ok (ht, reply_string (some t))) (type_of-word (view ht.items key))),
      )

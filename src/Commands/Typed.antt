-- ===== src/Commands/Typed.antt =====
-- The type test of the commands, in terms of what the table holds.
use Prim.Native.String.{String}
use hyperkv.Base.{
  ◌≤◌, true, false, Option, none, some, ◌≡◌, refl, ok, Str, codes, str_eq, if◌then◌else◌,
}
use hyperkv.Commands.{Result, with_type}
use hyperkv.Helper.Hash.{max_size}
use hyperkv.HTable.Valid.{IsValid}
use hyperkv.Objects.Types.{htable_type-view, type_of}
use hyperkv.Reply.{is_type, reply_err_type}
use hyperkv.Slots.View.{view}
use hyperkv.Strings.Laws.{takes_string}
use hyperkv.Value.{Store, Value, FieldTable, str_t, hash_t, list_t, set_t}

module _ (ht : Store) (valid : IsValid ht) (small : ht.size ≤ max_size) (key : Str) where
  pub with_type-view :
      (expected : String) (body : Result)
      → with_type ht key expected body ≡ (
          if is_type (type_of (view ht.items key)) (codes expected)
          then body
          else ok (ht, reply_err_type))
  unfolding with_type
  with_type-view expected body = rw (htable_type-view ht valid small key) refl

  -- A key that is free or holds a string passes the test of the string commands.
  pub with_type_string :
      (body : Result)
      → takes_string (view ht.items key) ≡ true
      → with_type ht key "string" body ≡ body
  unfolding is_type str_eq
  with_type_string body taken = rw (with_type-view "string" body) (go (view ht.items key) taken)
    where
      go :
          (held : Option (Value FieldTable))
          → takes_string held ≡ true
          → (if is_type (type_of held) (codes "string") then body else ok (ht, reply_err_type))
            ≡ body
      go none t = refl
      go (some (str_t s)) t = refl
      go (some (hash_t h)) t = cc
      go (some (list_t l)) t = cc
      go (some (set_t m)) t = cc

  -- A key of another type fails it, and the table stays as it is.
  pub with_type_rejected :
      (body : Result)
      → takes_string (view ht.items key) ≡ false
      → with_type ht key "string" body ≡ ok (ht, reply_err_type)
  unfolding is_type str_eq
  with_type_rejected body other = rw (with_type-view "string" body) (go (view ht.items key) other)
    where
      go :
          (held : Option (Value FieldTable))
          → takes_string held ≡ false
          → (if is_type (type_of held) (codes "string") then body else ok (ht, reply_err_type))
            ≡ ok (ht, reply_err_type)
      go none t = cc
      go (some (str_t s)) t = cc
      go (some (hash_t h)) t = refl
      go (some (list_t l)) t = refl
      go (some (set_t m)) t = refl

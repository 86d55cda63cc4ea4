-- ===== src/Reply/Safe.antt =====
-- The replies that are arrays end, or a number in them overflows; no reply is taken for the end of the
-- server's loop.
use hyperkv.Base.{
  get_or, ◌==◌, false, ◌≡◌, refl, ℤ, ℕ, List, [], ◌∷◌, Option, none, some, Str, Safe, Safe-bind,
  Safe-if,
}
use hyperkv.Helper.Number.{is_number}
use hyperkv.Helper.Number.Safe.{strtoi-Safe}
use hyperkv.Reply.{
  reply_string, reply_integer, reply_err_type, reply_err_intid, reply_err_argc, reply_element,
  reply_elements, reply_array_n, all_some, reply_array,
}

-- A reply that does not end the server's loop.
abbrev pub Plain : Str → Type 0
Plain resp = ((get_or resp 0 0 == b'q') ≡ false) × ((get_or resp 0 0 == b'x') ≡ false)

pub reply_string-Plain : (str : Option Str) → Plain (reply_string str)
unfolding reply_string
reply_string-Plain none = (refl, refl)
reply_string-Plain (some str) = (refl, refl)

pub reply_integer-Plain : (x : ℤ) → Plain (reply_integer x)
unfolding reply_integer
reply_integer-Plain x = (refl, refl)

pub reply_err_type-Plain : Plain reply_err_type
unfolding reply_err_type
reply_err_type-Plain = (refl, refl)

pub reply_err_intid-Plain : Plain reply_err_intid
unfolding reply_err_intid
reply_err_intid-Plain = (refl, refl)

pub reply_err_argc-Plain : (given : ℕ) (expected : Str) → Plain (reply_err_argc given expected)
unfolding reply_err_argc
reply_err_argc-Plain given expected = (refl, refl)

reply_element-Safe : (x : Option Str) → Safe (λ _. Unit) (reply_element x)
unfolding reply_element
reply_element-Safe none = Safe.returns _ tt
reply_element-Safe (some str) =
    Safe-if _ _ (is_number str) (λ _. Safe-bind _ (strtoi-Safe str) λ x _. Safe.returns _ tt)
      (λ _. Safe.returns _ tt)

reply_elements-Safe : (arr : List (Option Str)) → Safe (λ _. Unit) (reply_elements arr)
unfolding reply_elements
reply_elements-Safe [] = Safe.returns _ tt
reply_elements-Safe (x ∷ arr) =
    let rest = reply_elements-Safe arr in
    Safe-bind _ (reply_element-Safe x) λ tmp _. Safe-bind _ rest λ res _. Safe.returns _ tt

pub reply_array_n-Safe : (arr : List (Option Str)) → Safe Plain (reply_array_n arr)
unfolding reply_array_n
reply_array_n-Safe arr = Safe-bind _ (reply_elements-Safe arr) λ res _. Safe.returns _ (refl, refl)

pub reply_array-Safe : (arr : Option (List Str)) → Safe Plain (reply_array arr)
unfolding reply_array
reply_array-Safe none = Safe.returns _ (refl, refl)
reply_array-Safe (some arr) =
    Safe-bind _ (reply_elements-Safe (all_some arr)) λ res _. Safe.returns _ (refl, refl)

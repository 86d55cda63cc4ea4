-- ===== src/Reply.antt =====
-- The replies of src/interpreter.c, in the protocol of its clients.
pub mod Safe
pub mod Buffers
use hyperkv.Base.{
  ℕ, Bool, ◌||◌, List, [], ◌∷◌, ◌++◌, ℤ, pos, Option, none, some, Run, ok, ◌>>=◌, Str, codes,
  str_eq, length, if◌then◌else◌,
}
use hyperkv.Helper.Number.{is_number, strtoi, print_int}

abbrev pub crlf : Str
crlf = 13 ∷ 10 ∷ []

unfoldable pub reply_string : Option Str → Str
reply_string none = codes "$-1" ++ crlf
reply_string (some str) = b'$' ∷ (print_int (pos (length str)) ++ (crlf ++ (str ++ crlf)))

-- `ndigits` overflows on the least `int`, with which nothing calls this: `strtoi` does not return it, and
-- the commands that compute a number have stored it by `intostr` before.
unfoldable pub reply_integer : ℤ → Str
reply_integer x = b':' ∷ (print_int x ++ crlf)

-- One element of an array: numbers go out as integers.
reply_element : Option Str → Run Str
reply_element none = ok (reply_string none)
reply_element (some str) =
    if is_number str
    then strtoi str >>= (λ x. ok (reply_integer x))
    else ok (reply_string (some str))

reply_elements : List (Option Str) → Run Str
reply_elements [] = ok []
reply_elements (x ∷ arr) = do tmp ← reply_element x; rest ← reply_elements arr; ok (tmp ++ rest)

unfoldable pub reply_array_n : List (Option Str) → Run Str
unfolding reply_elements reply_element
reply_array_n arr = do
  res ← reply_elements arr
  ok (b'*' ∷ (print_int (pos (length arr)) ++ (crlf ++ res)))

all_some : List Str → List (Option Str)
all_some [] = []
all_some (x ∷ arr) = some x ∷ all_some arr

unfoldable pub reply_array : Option (List Str) → Run Str
unfolding reply_elements reply_element all_some
reply_array none = ok (codes "*0" ++ crlf)
reply_array (some arr) = do
  res ← reply_elements (all_some arr)
  ok (b'*' ∷ (print_int (pos (length arr)) ++ (crlf ++ res)))

unfoldable pub reply_err_argc : ℕ → Str → Str
reply_err_argc given expected =
    codes "-ERR wrong number of arguments (given "
    ++ (print_int (pos given) ++ (codes ", expected " ++ (expected ++ (codes ")" ++ crlf))))

unfoldable pub reply_err_type : Str
reply_err_type = codes "-ERR wrongtype operation" ++ crlf

unfoldable pub reply_err_intid : Str
reply_err_intid = codes "-ERR value is not an integer or out of range" ++ crlf

unfoldable pub is_type : Str → Str → Bool
is_type given expected = str_eq given expected || str_eq given (codes "none")

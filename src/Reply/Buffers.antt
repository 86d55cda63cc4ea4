-- ===== src/Reply/Buffers.antt =====
-- The sizes of the buffers that src/interpreter.c and src/helper.c allocate for what they print.
use hyperkv.Base.{
  ℕ, ◌+◌, ◌<◌, ◌≤◌, ◌∷◌, ◌++◌, ℤ, pos, pos_part, neg_part, some, Run, ok, ◌>>=◌, Returns, Str,
  int_max, length, length-append, refl, arith, codes,
}
use hyperkv.Helper.Number.{print_int, ndigits}
use hyperkv.Helper.Number.Digits.{length-intostr}
use hyperkv.Reply.{crlf, reply_string, reply_integer, reply_err_argc}

unfoldable pub intostr_size : ℤ → Run ℕ
intostr_size x = ndigits x >>= λ digits. ok (digits + 2)

unfoldable pub reply_string_size : Str → Run ℕ
reply_string_size str = ndigits (pos (length str)) >>= λ digits. ok (length str + digits + 7)

unfoldable pub reply_integer_size : ℤ → Run ℕ
reply_integer_size x = ndigits x >>= λ digits. ok (digits + 5)

-- The first line of an array, with what `reply_array` prints behind it.
unfoldable pub reply_array_size : ℕ → Str → Run ℕ
reply_array_size n res = ndigits (pos n) >>= λ digits. ok (length res + digits + 5)

unfoldable pub reply_err_argc_size : ℕ → Str → Run ℕ
reply_err_argc_size given expected =
    ndigits (pos given) >>= λ digits. ok (digits + length expected + 54)

fits :
    (x : ℤ) (printed : ℕ) (size : ℕ → ℕ)
    → pos_part x < int_max
    → neg_part x < int_max
    → ((d : ℕ) → length (print_int x) ≤ d + 1 → printed ≤ size d)
    → Returns (ndigits x >>= λ d. ok (size d)) λ room. printed ≤ room
fits x printed size high low enough =
    let (d, run, le) = length-intostr x high low in (size d, rw run refl, enough d le)

-- Where the lengths and the numbers are an `int`, and the numbers' negations, `ndigits` ends, and
-- every buffer holds what is printed into it with the NUL: a number, a string reply, an integer
-- reply, an array reply, and the reply on a wrong number of arguments.
pub reply-fits :
    (x : ℤ) (str res expected : Str) (n : ℕ)
    → pos_part x < int_max
    → neg_part x < int_max
    → length str < int_max
    → n < int_max
    → (Returns (intostr_size x) λ room. length (print_int x) + 1 ≤ room)
      × (Returns (reply_string_size str) λ room. length (reply_string (some str)) + 1 ≤ room)
      × (Returns (reply_integer_size x) λ room. length (reply_integer x) + 1 ≤ room)
      × (Returns
          (reply_array_size n res)
          λ room. length (b'*' ∷ (print_int (pos n) ++ (crlf ++ res))) + 1 ≤ room)
      × (Returns
          (reply_err_argc_size n expected)
          λ room. length (reply_err_argc n expected) + 1 ≤ room)
unfolding intostr_size reply_string_size reply_integer_size reply_array_size reply_err_argc_size
    reply_string reply_integer reply_err_argc
reply-fits x str res expected n high low long many = (
  fits x _ (λ d. d + 2) high low (λ d le. omega arith),
  fits (pos (length str)) _ (λ d. length str + d + 7) long (omega arith)
      (λ d le. omega (
        arith,
        le,
        length-append (print_int (pos (length str))) (crlf ++ (str ++ crlf)),
        length-append str crlf,
      )),
  fits x _ (λ d. d + 5) high low (λ d le. omega (arith, le, length-append (print_int x) crlf)),
  fits (pos n) _ (λ d. length res + d + 5) many (omega arith)
      (λ d le. omega (arith, le, length-append (print_int (pos n)) (crlf ++ res))),
  fits (pos n) _ (λ d. d + length expected + 54) many (omega arith)
      (λ d le. omega (
        arith,
        le,
        length-append (print_int (pos n))
            (codes ", expected " ++ (expected ++ (codes ")" ++ crlf))),
        length-append expected (codes ")" ++ crlf),
      )),
)

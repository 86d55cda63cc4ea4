-- ===== src/Client/RoundTrip.antt =====
-- The client reads back what the server replies.
use mathlib.Core.List.{append_assoc}
use hyperkv.Base.{
  ℕ, zero, suc, ◌+◌, ◌-◌, ◌*◌, ◌/◌, ◌%◌, ◌<◌, true, false, [], ◌∷◌, ◌++◌, ◌≡◌, refl, sym, ◌∙◌, ap,
  arith, ℤ, pos, negsuc, ◌+ℤ◌, ◌-ℤ◌, int_ℤ, none, some, ok, Str, int_max, pos_part, neg_part, ltb,
  leb, ◌==◌, Bool-cases, inl, inr, length, take, take-append, length-append,
}
use hyperkv.Client.{int_loop, parse_int, next_line, parse_str, parse_err, signed_char}
use hyperkv.Helper.Number.{decimal, print_int, all_digits}
use hyperkv.Helper.Number.Print.{decimal-digits}
use hyperkv.Reply.{crlf, reply_string, reply_integer}

digit_value : (d : ℕ) → d < 10 → signed_char (b'0' + d) -ℤ pos b'0' ≡ pos d
unfolding ◌-ℤ◌
digit_value d h = ground arith

pos_sum : (a b : ℕ) → pos a +ℤ pos b ≡ pos (a + b)
unfolding ◌+ℤ◌
pos_sum a b = ground arith

int_ℤ-pos : (n : ℕ) → n < int_max → int_ℤ (pos n) ≡ ok (pos n)
unfolding int_ℤ
int_ℤ-pos n h = ground arith

-- One round of the loop, on the digit `d`.
int_loop-digit :
    (a d n : ℕ) (rest : Str)
    → d < 10
    → a * 10 + d ≡ n
    → n < int_max
    → int_loop (pos a) ((b'0' + d) ∷ rest) ≡ int_loop (pos n) rest
unfolding int_loop
int_loop-digit a d n rest small e fits =
    let no_end : (b'0' + d == 13) ≡ false = ground arith in
    rw
      (
        no_end,
        int_ℤ-pos (a * 10) (omega arith),
        digit_value d small,
        pos_sum (a * 10) d,
        e,
        int_ℤ-pos n fits,
      )
      refl

int_loop-decimal :
    (fuel n : ℕ) (rest : Str)
    → n < fuel
    → n < int_max
    → int_loop (pos 0) (decimal fuel n ++ rest) ≡ int_loop (pos n) rest
unfolding decimal
int_loop-decimal zero n rest enough fits = absurd (omega arith)
int_loop-decimal (suc fuel) n rest enough fits = elim (Bool-cases (ltb n 10)) [
  | inl one ↦ rw one (int_loop-digit 0 n n rest (ground arith) (omega arith) fits)
  | inr more ↦
      rw (more, append_assoc)
        (int_loop-decimal fuel (n / 10) ((b'0' + n % 10) ∷ rest) (ground arith) (omega arith)
          ∙ int_loop-digit (n / 10) (n % 10) n rest (omega arith) (omega arith) fits)
]

reads :
    (n : ℕ) (rest : Str)
    → n < int_max
    → int_loop (pos 0) (decimal (suc n) n ++ 13 ∷ rest) ≡ ok (pos n)
unfolding int_loop
reads n rest fits = int_loop-decimal (suc n) n (13 ∷ rest) (omega arith) fits

-- The digits of a number begin with one that is no sign.
first_digit :
    (fuel n : ℕ) (rest : Str)
    → (c : ℕ) × (cs : Str) × (decimal (suc fuel) n ++ rest ≡ c ∷ cs) × ((c == b'-') ≡ false)
unfolding decimal
first_digit zero n rest = elim (Bool-cases (ltb n 10)) [
  | inl one ↦ (b'0' + n, rest, rw one refl, ground arith)
  | inr more ↦ (b'0' + n % 10, rest, rw more refl, ground arith)
]
first_digit (suc fuel) n rest = elim (Bool-cases (ltb n 10)) [
  | inl one ↦ (b'0' + n, rest, rw one refl, ground arith)
  | inr more ↦
      let (c, cs, e, plain) = first_digit fuel (n / 10) ((b'0' + n % 10) ∷ rest) in
      (c, cs, rw (more, append_assoc) e, plain)
]

parse_int-decimal :
    (type n : ℕ) (rest : Str)
    → n < int_max
    → parse_int (type ∷ (decimal (suc n) n ++ 13 ∷ rest)) ≡ ok (pos n)
unfolding parse_int
parse_int-decimal type n rest fits =
    let (c, cs, e, plain) = first_digit n n (13 ∷ rest) in
    let run : parse_int (type ∷ c ∷ cs) ≡ int_loop (pos 0) (c ∷ cs) = rw plain refl in
    ap (λ text. parse_int (type ∷ text)) e
    ∙ (run ∙ (ap (int_loop (pos 0)) (sym e) ∙ reads n rest fits))

parse_int-negative :
    (type n : ℕ) (rest : Str)
    → suc n < int_max
    → parse_int (type ∷ b'-' ∷ (decimal (suc (suc n)) (suc n) ++ 13 ∷ rest)) ≡ ok (negsuc n)
unfolding parse_int int_ℤ
parse_int-negative type n rest fits =
    let low : ltb n int_max ≡ true = ground arith in rw (reads (suc n) rest fits) (rw low refl)

-- `parse_int` reads what `%d` has printed, whatever follows the line.
pub parse_int-intostr :
    (type : ℕ) (x : ℤ) (rest : Str)
    → pos_part x < int_max
    → neg_part x < int_max
    → parse_int (type ∷ (print_int x ++ 13 ∷ rest)) ≡ ok x
unfolding print_int
parse_int-intostr type (pos n) rest fits _ = parse_int-decimal type n rest fits
parse_int-intostr type (negsuc n) rest _ fits = parse_int-negative type n rest (omega (arith, fits))

next_line-digits :
    (digits text : Str) → all_digits digits ≡ true → next_line (digits ++ 13 ∷ 10 ∷ text) ≡ ok text
unfolding next_line all_digits
next_line-digits [] text h = refl
next_line-digits (c ∷ digits) text h =
    let other : (c == 10) ≡ false = ground arith in
    rw other (next_line-digits digits text (ground arith))

-- The bytes behind the line are copied as far as the length says.
parse_str-line :
    (n : ℕ) (str : Str)
    → length str ≡ n
    → n < int_max
    → parse_str (b'$' ∷ (decimal (suc n) n ++ 13 ∷ 10 ∷ (str ++ crlf))) ≡ ok (some str)
unfolding parse_str next_line
parse_str-line n str e fits =
    let long : leb n (length (str ++ crlf) + 1) ≡ true = ground (arith, length-append str crlf) in
    let sign : ltb (n + 0) 0 ≡ false = ground arith in
    rw
      (
        parse_int-decimal b'$' n (10 ∷ (str ++ crlf)) fits,
        next_line-digits (decimal (suc n) n) (str ++ crlf) (decimal-digits (suc n) n),
        sign,
        long,
      )
      (ap (λ k. ok (some (take k (str ++ crlf)))) (sym e)
        ∙ ap (λ t. ok (some t)) (take-append str crlf))

reply_none : parse_str (reply_string none) ≡ ok none
unfolding parse_str parse_int int_loop reply_string int_ℤ ◌+ℤ◌ ◌-ℤ◌
reply_none = refl

parse_err-line :
    (type : ℕ) (text stale : Str) → parse_err stale (type ∷ (text ++ crlf)) ≡ ok (text ++ stale)
unfolding parse_err
parse_err-line type text stale =
    let enough : ltb (length (text ++ crlf)) 2 ≡ false = ground (arith, length-append text crlf) in
    let less : length (text ++ crlf) - 2 ≡ length text = omega (arith, length-append text crlf) in
    rw (enough, less) (ap (λ t. ok (t ++ stale)) (take-append text crlf))

-- The client reads a string reply as the string, and the reply for none as none, where the length is
-- an `int`; an integer reply as the integer, where it and its negation are an `int`; and of an
-- error reply the text between the sign and the end of the line, with the stale bytes that are in
-- memory behind the copy, up to the next NUL, at its end.
pub parse-reply :
    (str : Str) (x : ℤ) (text stale : Str)
    → length str < int_max
    → pos_part x < int_max
    → neg_part x < int_max
    → (parse_str (reply_string (some str)) ≡ ok (some str))
      × (parse_str (reply_string none) ≡ ok none)
      × (parse_int (reply_integer x) ≡ ok x)
      × (parse_err stale (b'-' ∷ (text ++ crlf)) ≡ ok (text ++ stale))
unfolding reply_string reply_integer print_int
parse-reply str x text stale fits high low = (
  parse_str-line (length str) str refl fits,
  reply_none,
  parse_int-intostr b':' x (10 ∷ []) high low,
  parse_err-line b'-' text stale,
)

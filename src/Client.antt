-- ===== src/Client.antt =====
-- The client of src/client.c: how it reads a reply, and its loop.
pub mod RoundTrip
pub mod Exchange
pub mod Session
use hyperkv.Base.{
  ℕ, zero, suc, ◌+◌, ◌-◌, ◌*◌, Bool, true, false, List, [], ◌∷◌, ◌++◌, ℤ, pos, negsuc, ◌+ℤ◌, ◌-ℤ◌,
  int_ℤ, pos_part, ltb_ℤ, Option, none, some, Run, ok, fault, Fault, ◌>>=◌, Str, codes, length,
  take, ltb, leb, ◌==◌, if◌then◌else◌,
}
use hyperkv.Helper.Number.{print_int, negate}
use hyperkv.Socket.{readline, writeline}

-- A `char`, which is signed, as an `int`.
abbrev pub signed_char : ℕ → ℤ
signed_char c = if ltb c 128 then pos c else pos c -ℤ pos 256

abbrev pub ten_times : ℤ → ℤ
ten_times (pos n) = pos (n * 10)
ten_times (negsuc n) = negate (suc n * 10)

abbrev pub opposite : ℤ → ℤ
opposite (pos n) = negate n
opposite (negsuc n) = pos (suc n)

-- `while (*resp != CR)`, which runs past the end of a string without one.
unfoldable pub int_loop : ℤ → Str → Run ℤ
int_loop n [] = fault Fault.out_of_bounds
int_loop n (c ∷ resp) = if c == 13 then ok n else do
  tens ← int_ℤ (ten_times n)
  next ← int_ℤ (tens +ℤ (signed_char c -ℤ pos b'0'))
  int_loop next resp

-- The first character is the type of the reply.
unfoldable pub parse_int : Str → Run ℤ
unfolding int_loop
parse_int [] = fault Fault.out_of_bounds
parse_int (type ∷ []) = fault Fault.out_of_bounds
parse_int (type ∷ c ∷ resp) =
    if c == b'-'
    then int_loop (pos 0) resp >>= (λ n. int_ℤ (opposite n))
    else int_loop (pos 0) (c ∷ resp)

-- `while (*resp != LF) resp++; resp++;`
unfoldable pub next_line : Str → Run Str
next_line [] = fault Fault.out_of_bounds
next_line (c ∷ resp) = let rest = next_line resp in if c == 10 then ok resp else rest

-- The copy reads `n` characters, of which the last may be the NUL at the end.
unfoldable pub parse_str : Str → Run (Option Str)
unfolding parse_int next_line
parse_str resp = do
  n ← parse_int resp
  if ltb_ℤ n (pos 0) then ok none else do
    text ← next_line resp
    if leb (pos_part n) (length text + 1)
        then ok (some (take (pos_part n) text))
        else fault Fault.out_of_bounds

-- The characters before the last two. The copy writes no NUL behind them, so that the string goes on
-- with `stale`, what the memory there holds up to the next NUL.
unfoldable pub parse_err : (stale : Str) → Str → Run Str
parse_err stale [] = fault Fault.out_of_bounds
parse_err stale (type ∷ resp) =
    if ltb (length resp) 2
    then fault Fault.out_of_bounds
    else ok (take (length resp - 2) resp ++ stale)

abbrev line : Str → Str
line text = text ++ 10 ∷ []

-- `print_quote_encase`
unfoldable pub print_quote_encase : Str → Str
print_quote_encase str = line (b'"' ∷ (str ++ b'"' ∷ []))

-- What is printed. `stale` is what the memory behind an error message holds up to the next NUL.
unfoldable pub parse_resp : (stale : Str) → Str → Run Str
unfolding parse_str parse_int parse_err print_quote_encase
parse_resp stale [] = ok []
parse_resp stale (c ∷ resp) =
    if c == b'$'
    then (do
      tmp ← parse_str (c ∷ resp)
      ok (elim tmp [ none ↦ line (codes "(nil)") | some str ↦ print_quote_encase str ]))
    else if c == b':'
    then parse_int (c ∷ resp) >>= (λ n. ok (line (codes "(integer) " ++ print_int n)))
    else if c == b'*'
    then ok []
    else if c == b'-'
    then parse_err stale (c ∷ resp) >>= (λ str. ok (line str))
    else ok []

-- `peer` stands for the server: its state, and what it leaves in the client's buffer for the bytes
-- that the client has written. The lines that `fgets` reads are the input; the result is what is
-- printed behind the prompts.
unfoldable pub repl :
    {S : Type 0} (peer : S → List ℕ → Run (S × List ℕ)) (stale : Str)
    → S
    → List Str
    → Run (S × List Str)
unfolding parse_resp
repl peer stale s [] = ok (s, [])
repl peer stale s (inp ∷ inputs) = do
  (s', buffer) ← peer s (writeline inp)
  resp ← readline buffer
  printed ← parse_resp stale resp
  (s'', more) ← repl peer stale s' inputs
  ok (s'', printed ∷ more)

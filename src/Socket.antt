-- ===== src/Socket.antt =====
-- `readline` and `writeline` of src/server.c, which the server and the client share. The system calls
-- `read` and `write` are the bytes that they carry.
pub mod RoundTrip
use hyperkv.Base.{
  ℕ, List, [], ◌∷◌, ◌++◌, Run, ok, fault, Fault, ◌>>=◌, Str, take, drop, drop_last, length, ◌==◌,
  if◌then◌else◌,
}

-- `strlen` reads up to the first NUL, and past the buffer if there is none.
unfoldable pub until_nul : List ℕ → Run Str
until_nul [] = fault Fault.out_of_bounds
until_nul (c ∷ buffer) =
    let rest = until_nul buffer in if c == 0 then ok [] else rest >>= (λ str. ok (c ∷ str))

abbrev pub buffer_size : ℕ
buffer_size = 1024

-- What `read(cfd, msg, 1024)` leaves in the buffer: the bytes that have arrived, as many as it holds,
-- and behind them what it held.
unfoldable pub received : (arrived old : List ℕ) → List ℕ
received arrived old = take buffer_size arrived ++ drop (length arrived) old

-- The buffer is what `read` has left in it. `msg[strlen(msg) - 1] = 0` of an empty message writes
-- before it.
unfoldable pub readline : List ℕ → Run Str
unfolding until_nul
readline buffer = do
  msg ← until_nul buffer
  elim msg [ [] ↦ fault Fault.out_of_bounds | c ∷ rest ↦ ok (drop_last (c ∷ rest)) ]

-- The bytes that go out: the message, a newline and the NUL.
unfoldable pub writeline : Str → List ℕ
writeline msg = msg ++ 10 ∷ 0 ∷ []

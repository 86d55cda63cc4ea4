-- ===== src/Server.antt =====
-- The command loop of src/server.c for one client.
pub mod Safe
use hyperkv.Base.{ℕ, List, [], ◌∷◌, ◌++◌, Run, ok, ◌>>=◌, Str, get_or, ◌==◌, if◌then◌else◌}
use hyperkv.Interpreter.{interpret}
use hyperkv.Parser.{parse}
use hyperkv.Socket.{readline}
use hyperkv.Value.{Store}

-- How the loop ends: the client asked to quit (code 0) or to shut the server down (code 1), or it is
-- waiting for a message.
pub data Exit : Type 0 where
  quit shutdown waiting : Exit

pub record Session : Type 0 where
  pub store : Store
  pub sent : List Str
  pub exit : Exit

-- The buffers are what `read` leaves in the 1024 bytes of `readline`, one after the other; `sent`
-- collects what `writeline` writes.
unfoldable pub rediskw : Store → List (List ℕ) → List Str → Run Session
rediskw ht [] sent = ok (record { store = ht; sent = sent; exit = Exit.waiting })
rediskw ht (buffer ∷ buffers) sent = do
  msg ← readline buffer
  cmd ← parse msg
  (ht', resp) ← interpret ht cmd
  let rest = rediskw ht' buffers (sent ++ (resp ++ 10 ∷ []) ∷ [])
  if get_or resp 0 0 == b'q'
      then ok (record { store = ht'; sent = sent; exit = Exit.quit })
      else if get_or resp 0 0 == b'x'
      then ok (record { store = ht'; sent = sent; exit = Exit.shutdown })
      else rest

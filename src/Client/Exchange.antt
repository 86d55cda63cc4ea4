-- ===== src/Client/Exchange.antt =====
-- One message of a client of src/client.c, and the reply of the server of src/server.c at the other
-- end of the connection.
use mathlib.Core.List.{append_assoc}
use hyperkv.Base.{
  ℕ, ◌+◌, ◌≤◌, true, false, List, [], ◌∷◌, ◌++◌, ◌≡◌, refl, ◌∙◌, ap, arith, Run, ok, ◌>>=◌, Str,
  length, get_or, leb, ◌==◌,
}
use hyperkv.Client.{parse_resp, repl}
use hyperkv.Interpreter.{interpret}
use hyperkv.Parser.{Command, parse}
use hyperkv.Server.{Exit, rediskw}
use hyperkv.Socket.{readline, writeline, received, buffer_size}
use hyperkv.Socket.RoundTrip.{no_nul, readline-writeline}
use hyperkv.Value.{Store}

-- The bytes that the server has written for a message.
abbrev pub sent_bytes : List Str → List ℕ
sent_bytes [] = []
sent_bytes (line ∷ lines) = line ++ 0 ∷ sent_bytes lines

-- The server at the other end: one round of its loop on the bytes of the client. The buffers of the
-- two sides held what they held.
abbrev pub connection : (old old' : List ℕ) → Store → List ℕ → Run (Store × List ℕ)
connection old old' ht sent = do
  session ← rediskw ht (received sent old ∷ []) []
  ok (session.store, received (sent_bytes session.sent) old')

rediskw_answer :
    (ht ht' : Store) (buffer : List ℕ) (msg resp : Str) (cmd : Command)
    → readline buffer ≡ ok msg
    → parse msg ≡ ok cmd
    → interpret ht cmd ≡ ok (ht', resp)
    → (get_or resp 0 0 == b'q') ≡ false
    → (get_or resp 0 0 == b'x') ≡ false
    → rediskw ht (buffer ∷ []) []
      ≡ ok (record { store = ht'; sent = (resp ++ 10 ∷ []) ∷ []; exit = Exit.waiting })
unfolding rediskw
rediskw_answer ht ht' buffer msg resp cmd reads parses runs no_quit no_shutdown =
    rw (reads, parses) (rw runs (rw (no_quit, no_shutdown) refl))

module _ (old old' : List ℕ) (room : length old ≡ buffer_size)
    (room' : length old' ≡ buffer_size) where
  arrives :
      (msg : Str) (held : List ℕ)
      → length held ≡ buffer_size
      → no_nul msg ≡ true
      → length msg + 2 ≤ buffer_size
      → readline (received (writeline msg) held) ≡ ok msg
  arrives msg held whole plain fits =
      let enough : leb (length msg + 2) buffer_size ≡ true = ground arith in
      readline-writeline msg held plain whole ∙ rw enough refl

  connection_answer :
      (ht ht' : Store) (inp resp : Str) (cmd : Command)
      → readline (received (writeline inp) old) ≡ ok inp
      → parse inp ≡ ok cmd
      → interpret ht cmd ≡ ok (ht', resp)
      → (get_or resp 0 0 == b'q') ≡ false
      → (get_or resp 0 0 == b'x') ≡ false
      → connection old old' ht (writeline inp) ≡ ok (ht', received (writeline resp) old')
  unfolding writeline
  connection_answer ht ht' inp resp cmd arrives parses runs no_quit no_shutdown =
      (rw
        (rediskw_answer ht ht' (received (writeline inp) old) inp resp cmd arrives parses runs
          no_quit no_shutdown)
        (ap (λ t. ok (ht', received t old')) (append_assoc resp (10 ∷ []) (0 ∷ []))))

  repl_step :
      (stale : Str) (ht ht' r : Store) (inp resp printed : Str) (buffer : List ℕ)
      (inputs more : List Str)
      → connection old old' ht (writeline inp) ≡ ok (ht', buffer)
      → readline buffer ≡ ok resp
      → parse_resp stale resp ≡ ok printed
      → repl (connection old old') stale ht' inputs ≡ ok (r, more)
      → repl (connection old old') stale ht (inp ∷ inputs) ≡ ok (r, printed ∷ more)
  unfolding repl
  repl_step stale ht ht' r inp resp printed buffer inputs more goes reads prints rest =
      rw goes (rw reads (rw prints (rw rest refl)))

  module _ (stale : Str) (ht ht' r : Store) (inp resp printed : Str) (cmd : Command)
      (inputs more : List Str) (plain : no_nul inp ≡ true) (fits : length inp + 2 ≤ buffer_size)
      (parses : parse inp ≡ ok cmd) (runs : interpret ht cmd ≡ ok (ht', resp))
      (no_quit : (get_or resp 0 0 == b'q') ≡ false)
      (no_shutdown : (get_or resp 0 0 == b'x') ≡ false) (plain' : no_nul resp ≡ true)
      (fits' : length resp + 2 ≤ buffer_size) where
    pub exchange :
        parse_resp stale resp ≡ ok printed
        → repl (connection old old') stale ht' inputs ≡ ok (r, more)
        → repl (connection old old') stale ht (inp ∷ inputs) ≡ ok (r, printed ∷ more)
    exchange prints rest =
        repl_step stale ht ht' r inp resp printed (received (writeline resp) old') inputs more
          (connection_answer ht ht' inp resp cmd (arrives inp old room plain fits) parses runs
            no_quit no_shutdown)
          (arrives resp old' room' plain' fits') prints rest

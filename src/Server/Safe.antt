-- ===== src/Server/Safe.antt =====
-- The command loop keeps the server's table sound and answers its client, for every message that reaches it.
use hyperkv.Base.{ℕ, ◌+◌, ◌≡◌, List, [], ◌∷◌, ◌++◌, ok, Str, length, Safe}
use hyperkv.Interpreter.{interpret}
use hyperkv.Parser.{CommandType, Command, parse}
use hyperkv.Server.{Exit, Session}
use hyperkv.Socket.{readline}
use hyperkv.Value.{Store}

-- `readline` reads each message from its buffer, inside the buffer.
abbrev pub Arrived : List (List ℕ) → List Str → Type 0
Arrived [] [] = Unit
Arrived (buffer ∷ buffers) (msg ∷ messages) = (readline buffer ≡ ok msg) × Arrived buffers messages
Arrived _ _ = ⊥

-- The messages before one that parses to a command of the type have been answered, each with a line.
abbrev pub EndsAt : CommandType → (sent messages lines : List Str) → Type 0
EndsAt kind sent messages lines =
    (answered rest : List Str) × (msg : Str) × (argv : List Str) × (messages
      ≡ answered ++ msg ∷ rest)
    × (length lines ≡ length sent + length answered)
    × (parse msg ≡ ok (record { type = kind; argv = argv }))

-- A line has been sent for each message, or for each one before a quit or a shutdown.
abbrev pub Answered : (sent messages : List Str) → Session → Type 0
Answered sent messages session = elim session.exit [
  | Exit.waiting ↦ length session.sent ≡ length sent + length messages
  | Exit.quit ↦ EndsAt CommandType.quit sent messages session.sent
  | Exit.shutdown ↦ EndsAt CommandType.shutdown sent messages session.sent
]

-- Each message is parsed and run on the table that those before it have left, and answered with the
-- reply and a newline.
pub data Dialogue : Store → (messages lines : List Str) → Store → Type 0 where
  silent : {ht : Store} → Dialogue ht [] [] ht
  answers :
      {ht ht' ht'' : Store} {msg resp : Str} {cmd : Command} {messages lines : List Str}
      → parse msg ≡ ok cmd
      → interpret ht cmd ≡ ok (ht', resp)
      → Dialogue ht' messages lines ht''
      → Dialogue ht (msg ∷ messages) ((resp ++ 10 ∷ []) ∷ lines) ht''

-- What is sent answers messages from the first on.
abbrev pub Spoken : Store → (sent messages lines : List Str) → Type 0
Spoken ht sent messages lines =
    (answered rest new : List Str) × (ht' : Store) × (messages ≡ answered ++ rest)
    × (lines ≡ sent ++ new)
    × Dialogue ht answered new ht'

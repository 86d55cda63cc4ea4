-- ===== src/Programs.antt =====
-- The main functions of src/hyperkv.c and src/hyperkv-cli.c.
pub mod Calls
use hyperkv.Base.{
  ℕ, ℤ, Bool, true, false, List, [], ◌∷◌, ◌++◌, Option, none, some, Run, ok, ◌>>=◌, Str, codes,
  str_eq, if◌then◌else◌,
}
use hyperkv.Client.{repl}
use hyperkv.HTable.{htable_init, ht_base_size}
use hyperkv.LogInit.{
  LogCall, Environment, log_init_default, log_init_production, log_init_development,
  log_init_testing, log_init_from_env,
}
use hyperkv.Network.{
  Outcome, Sys, init_server, accept_connection, close_socket, connect_server, localhost, port_num,
}
use hyperkv.Release.{Block, htable_free}
use hyperkv.Server.{Exit, Session, rediskw}
use hyperkv.Value.{Store}

-- How a program begins: it has set up logging and runs, or prints its usage and exits with a code.
pub data Start : Type 0 where
  runs : List LogCall → Start
  usage : (unknown : Option Str) → (code : ℕ) → Start

-- The options, where no environment variable chooses the level. The programs differ in what they do
-- without one.
unfoldable pub option_calls : Environment → Str → Start
option_calls env option =
    if str_eq option (codes "--dev")
    then Start.runs (log_init_development env)
    else if str_eq option (codes "--prod")
    then Start.runs (log_init_production env)
    else if str_eq option (codes "--test")
    then Start.runs log_init_testing
    else if str_eq option (codes "--help")
    then Start.usage none 0
    else Start.usage (some option) 1

-- `argv` without the name of the program.
unfoldable pub start_server : Environment → List Str → Start
unfolding option_calls
start_server env argv = elim env.log_level [
  | some _ ↦ Start.runs (log_init_from_env env)
  | none ↦ elim argv [
    | [] ↦ Start.runs (log_init_development env)
    | option ∷ _ ↦ option_calls env option
  ]
]

unfoldable pub start_client : Environment → List Str → Start
unfolding option_calls
start_client env argv = elim env.log_level [
  | some _ ↦ Start.runs (log_init_from_env env)
  | none ↦ elim argv [ [] ↦ Start.runs log_init_default | option ∷ _ ↦ option_calls env option ]
]

-- What the server has done: its table, the replies to each client, and whether a client has shut it
-- down. While a client is connected and silent no other is served.
pub record Served : Type 0 where
  pub store : Store
  pub replies : List (List Str)
  pub stopped : Bool

abbrev pub last_client : Session → Bool → Served
last_client session stopped = record {
  store = session.store;
  replies = session.sent ∷ [];
  stopped = stopped;
}

abbrev pub unserved : Store → Served
unserved ht = record { store = ht; replies = []; stopped = false }

-- The replies to a client go in front of those to the next.
abbrev pub answered : List Str → Served → Served
answered replies served = record served { replies = replies ∷ served.replies }

-- `close_server` frees the table and exits with code 0, after a client has asked for it.
unfoldable pub close_server : Store → Run (List Block)
close_server ht = htable_free ht

-- Where the program is after the connections: the state of the system, what it has done, and its exit,
-- or that it goes on.
pub record Ran (W : Type 0) : Type 0 where
  pub world : W
  pub served : Served
  pub freed : List Block
  pub end : Outcome (Unit {0})

abbrev pub reaches : {W : Type 0} → W → Served → List Block → Outcome (Unit {0}) → Ran W
reaches w served freed end = record { world = w; served = served; freed = freed; end = end }

module _ {W : Type 0} (sys : Sys W) (sfd : ℤ) where
  -- The loop of `main` with its system calls. It takes a connection, and closes it when the client has
  -- quit; `close_server` closes the socket that the server listens on. The input is, for each of
  -- the next connections, what `read` leaves in the buffers of its messages.
  unfoldable pub main_loop : W → Store → List (List (List ℕ)) → Run (Ran W)
  unfolding close_server
  main_loop w ht [] = ok (reaches w (unserved ht) [] (Outcome.returns tt))
  main_loop w ht (buffers ∷ connections) =
      let (w', accepted) = accept_connection sys w sfd in
      elim accepted [
        | Outcome.exits code message ↦ ok (reaches w' (unserved ht) [] (Outcome.exits code message))
        | Outcome.returns cfd ↦ do
          session ← rediskw ht buffers []
          let later = do
            ran ← main_loop (close_socket sys w' cfd) session.store connections
            ok (record ran { served = answered session.sent ran.served })
          let ends = do
            freed ← close_server session.store
            ok (
                reaches (close_socket sys w' sfd) (last_client session true) freed
                  (Outcome.exits 0 []))
          elim session.exit [
            | Exit.shutdown ↦ ends
            | Exit.waiting ↦ ok (reaches w' (last_client session false) [] (Outcome.returns tt))
            | Exit.quit ↦ later
          ]
      ]

-- `main`: the table is there before the socket.
unfoldable pub server_program : {W : Type 0} → Sys W → W → List (List (List ℕ)) → Run (Ran W)
unfolding htable_init main_loop
server_program sys w connections = do
  ht ← htable_init ht_base_size
  let (w', opened) = init_server sys w
  elim opened [
    | Outcome.exits code message ↦ ok (reaches w' (unserved ht) [] (Outcome.exits code message))
    | Outcome.returns sfd ↦ main_loop sys sfd w' ht connections
  ]

-- `main` of the client: the connection to the server on the same machine, and the loop over the lines of
-- input.
unfoldable pub client_program :
    {W S : Type 0}
    → Sys W
    → (inet_addr : Str → ℕ) → (peer : S → List ℕ → Run (S × List ℕ)) (stale : Str) → W
    → S
    → List Str
    → W × Outcome (Run (S × List Str))
client_program sys inet_addr peer stale w s inputs =
    let (w', opened) = connect_server sys inet_addr w localhost port_num in
    (
      w',
      elim opened [
        | Outcome.exits code message ↦ Outcome.exits code message
        | Outcome.returns cfd ↦ Outcome.returns (repl peer stale s inputs)
      ],
    )

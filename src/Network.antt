-- ===== src/Network.antt =====
-- The sockets of src/server.c and src/client.c. The system calls are a parameter: `sys` gives what a
-- call returns, and the state that it leaves.
pub mod Traces
use hyperkv.Base.{
  ℕ, ◌%◌, ◌^◌, Bool, false, List, [], ◌∷◌, ◌++◌, ℤ, pos, negsuc, is_zero, ltb_ℤ, Str, codes, ◌==◌,
  if◌then◌else◌,
}

-- The arguments that the code chooses. `bind` is to every address of the machine, at the port.
pub data Call : Type 0 where
  socket : Call
  bind : ℤ → ℕ → Call
  listen : ℤ → ℕ → Call
  accept : ℤ → Call
  connect : ℤ → ℕ → ℕ → Call
  shutdown : ℤ → Call
  close : ℤ → Call

-- A function returns, or the program exits with a code after it has printed a message.
pub data Outcome {ℓ} (A : Type ℓ) : Type ℓ where
  exits : (code : ℕ) (message : Str) → Outcome A
  returns : A → Outcome A

abbrev pub Sys : Type 0 → Type 0
Sys W = W → Call → W × ℤ

abbrev pub port_num : ℕ
port_num = 6379

abbrev pub localhost : Str
localhost = codes "127.0.0.1"

-- The port as `htons` takes it, a `uint16_t`.
abbrev pub htons : ℕ → ℕ
htons port = port % 2 ^ 16

abbrev pub is_minus_one : ℤ → Bool
is_minus_one (pos n) = false
is_minus_one (negsuc n) = n == 0

module _ {W : Type 0} (sys : Sys W) where
  unfoldable pub init_server : W → W × Outcome ℤ
  init_server w =
      let (w1, sfd) = sys w Call.socket in
      if is_minus_one sfd
      then (w1, Outcome.exits 1 (codes "failed to create socket"))
      else (let (w2, bound) = sys w1 (Call.bind sfd (htons port_num)) in
          if is_zero bound
          then (let (w3, listening) = sys w2 (Call.listen sfd 5) in
              if is_zero listening
              then (w3, Outcome.returns sfd)
              else (w3, Outcome.exits 1 (codes "listen failed")))
          else (w2, Outcome.exits 1 (codes "failed to bind socket")))

  unfoldable pub accept_connection : W → ℤ → W × Outcome ℤ
  accept_connection w sfd =
      let (w1, cfd) = sys w (Call.accept sfd) in
      (
        w1,
        if ltb_ℤ cfd (pos 0)
            then Outcome.exits 1 (codes "failed to accept connection")
            else Outcome.returns cfd,
      )

  unfoldable pub close_socket : W → ℤ → W
  close_socket w sockfd = (sys w (Call.close sockfd)).0

  -- Nothing calls it.
  unfoldable pub close_client : W → ℤ → W
  close_client w cfd = (sys (sys w (Call.shutdown cfd)).0 (Call.close cfd)).0

  -- `inet_addr` is a parameter; the code does not test what it returns.
  unfoldable pub connect_server : (inet_addr : Str → ℕ) → W → Str → ℕ → W × Outcome ℤ
  connect_server inet_addr w addr port =
      let (w1, sockfd) = sys w Call.socket in
      if is_minus_one sockfd
      then (w1, Outcome.exits 1 (codes "failed to create socket"))
      else (let (w2, connected) = sys w1 (Call.connect sockfd (inet_addr addr) (htons port)) in
          if is_zero connected
          then (w2, Outcome.returns sockfd)
          else (w2, Outcome.exits 1 (codes "failed to connect to server")))

-- The system calls with what each has returned, in their order.
abbrev pub Event : Type 0
Event = Call × ℤ

abbrev pub recorded : {W : Type 0} → Sys W → Sys (W × List Event)
recorded sys (w, events) call =
    let (w', result) = sys w call in ((w', events ++ (call, result) ∷ []), result)

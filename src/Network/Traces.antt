-- ===== src/Network/Traces.antt =====
-- The system calls that `init_server` and `connect_server` make, against a list of steps that ends at
-- the first call that fails.
use hyperkv.Base.{
  ℕ, true, false, arith, List, [], ◌∷◌, ◌≡◌, ◌≢◌, refl, inl, inr, ℤ, pos, negsuc, suc, zero,
  is_zero, Str, codes, Bool-cases, subst,
}
use hyperkv.Network.{
  Call, Outcome, Sys, Event, recorded, htons, port_num, is_minus_one, init_server, connect_server,
}

-- `socket` fails with -1, the other calls with anything but 0.
abbrev pub Fails : Call → ℤ → Type 0
Fails Call.socket r = r ≡ negsuc 0
Fails _ r = r ≢ pos 0

abbrev pub Succeeds : Call → ℤ → Type 0
Succeeds Call.socket r = r ≢ negsuc 0
Succeeds _ r = r ≡ pos 0

-- The steps, each a call with the message for its failure, are made in their order. The first that
-- fails is the last that is made, and the program exits with code 1 and its message; where none fails
-- the descriptor is returned.
pub data Steps (fd : ℤ) : List (Call × Str) → Outcome ℤ → List Event → Type 0 where
  done : Steps fd [] (Outcome.returns fd) []
  stops :
      {call : Call} {message : Str} {rest : List (Call × Str)} {r : ℤ}
      → Fails call r
      → Steps fd ((call, message) ∷ rest) (Outcome.exits 1 message) ((call, r) ∷ [])
  goes :
      {call : Call} {message : Str} {rest : List (Call × Str)} {r : ℤ} {end : Outcome ℤ}
      {events : List Event}
      → Succeeds call r
      → Steps fd rest end events
      → Steps fd ((call, message) ∷ rest) end ((call, r) ∷ events)

abbrev pub create : Call × Str
create = (Call.socket, codes "failed to create socket")

-- The descriptor that the later steps use, and that is returned, is what `socket` has returned.
abbrev pub Opens : Outcome ℤ → List Event → Type 0
Opens end events =
    (fd : ℤ) × (rest : List Event) × (events ≡ (Call.socket, fd) ∷ rest)
    × Steps fd
        (create
          ∷ (Call.bind fd 6379, codes "failed to bind socket")
          ∷ (Call.listen fd 5, codes "listen failed")
          ∷ [])
        end events

abbrev pub Connects : (address port : ℕ) → Outcome ℤ → List Event → Type 0
Connects address port end events =
    (fd : ℤ) × (rest : List Event) × (events ≡ (Call.socket, fd) ∷ rest)
    × Steps fd
        (create ∷ (Call.connect fd address (htons port), codes "failed to connect to server") ∷ [])
        end events

minus_one : (r : ℤ) → is_minus_one r ≡ true → r ≡ negsuc 0
minus_one (pos n) e = absurd (let no : false ≡ true = e in cc)
minus_one (negsuc zero) e = refl
minus_one (negsuc (suc n)) e = absurd (ground (arith, e))

not_minus_one : (r : ℤ) → is_minus_one r ≡ false → r ≢ negsuc 0
not_minus_one r e same =
    absurd
      (let no : is_minus_one (negsuc 0) ≡ false = subst (λ t. is_minus_one t ≡ false) same e in cc)

is_zero-yes : (r : ℤ) → is_zero r ≡ true → r ≡ pos 0
is_zero-yes (pos zero) e = refl
is_zero-yes (pos (suc n)) e = absurd (ground (arith, e))
is_zero-yes (negsuc n) e = absurd (let no : false ≡ true = e in cc)

is_zero-no : (r : ℤ) → is_zero r ≡ false → r ≢ pos 0
is_zero-no r e same =
    absurd (let no : is_zero (pos 0) ≡ false = subst (λ t. is_zero t ≡ false) same e in cc)

module _ {W : Type 0} (sys : Sys W) (w : W) where
  pub init_server-Opens :
      Opens (init_server (recorded sys) (w, [])).1 (init_server (recorded sys) (w, [])).0.1
  unfolding init_server
  init_server-Opens =
      let (w1, sfd) = sys w Call.socket in
      let (w2, bound) = sys w1 (Call.bind sfd (htons port_num)) in
      let (w3, listening) = sys w2 (Call.listen sfd 5) in
      elim (Bool-cases (is_minus_one sfd)) [
        | inl e ↦ rw e (sfd, _, refl, Steps.stops (minus_one sfd e))
        | inr e ↦
            let made = not_minus_one sfd e in
            elim (Bool-cases (is_zero bound)) [
              | inl z ↦
                  let binds = is_zero-yes bound z in
                  elim (Bool-cases (is_zero listening)) [
                    | inl z' ↦ rw e (
                        rw z (
                          rw z' (
                            sfd,
                            _,
                            refl,
                            Steps.goes made (
                                Steps.goes binds
                                  (Steps.goes (is_zero-yes listening z') Steps.done)),
                          )))
                    | inr z' ↦ rw e (
                        rw z (
                          rw z' (
                            sfd,
                            _,
                            refl,
                            Steps.goes made
                                (Steps.goes binds (Steps.stops (is_zero-no listening z'))),
                          )))
                  ]
              | inr z ↦
                  rw e (rw z (sfd, _, refl, Steps.goes made (Steps.stops (is_zero-no bound z))))
            ]
      ]

  connect_server-Connects :
      (inet_addr : Str → ℕ) (addr : Str) (port : ℕ)
      → Connects
          (inet_addr addr)
          port
          (connect_server (recorded sys) inet_addr (w, []) addr port).1
          (connect_server (recorded sys) inet_addr (w, []) addr port).0.1
  unfolding connect_server
  connect_server-Connects inet_addr addr port =
      let (w1, fd) = sys w Call.socket in
      let (w2, connected) = sys w1 (Call.connect fd (inet_addr addr) (htons port)) in
      elim (Bool-cases (is_minus_one fd)) [
        | inl e ↦ rw e (fd, _, refl, Steps.stops (minus_one fd e))
        | inr e ↦
            let made = not_minus_one fd e in
            elim (Bool-cases (is_zero connected)) [
              | inl z ↦ rw e (
                  rw z (
                    fd,
                    _,
                    refl,
                    Steps.goes made (Steps.goes (is_zero-yes connected z) Steps.done),
                  ))
              | inr z ↦
                  rw e (rw z (fd, _, refl, Steps.goes made (Steps.stops (is_zero-no connected z))))
            ]
      ]

  -- Whatever the system calls return, `init_server` makes a socket, binds it to port 6379 and listens
  -- on it with a queue of 5, and returns the socket; or it stops at the first of these calls that fails
  -- (`socket` with -1, the others with anything but 0) and exits with code 1 and the message of that
  -- call. `connect_server` likewise makes a socket and connects it to what `inet_addr` makes of the
  -- address, at the port modulo 2^16.
  pub sockets-Opens :
      (inet_addr : Str → ℕ) (addr : Str) (port : ℕ)
      → Opens (init_server (recorded sys) (w, [])).1 (init_server (recorded sys) (w, [])).0.1
        × Connects
            (inet_addr addr)
            port
            (connect_server (recorded sys) inet_addr (w, []) addr port).1
            (connect_server (recorded sys) inet_addr (w, []) addr port).0.1
  sockets-Opens inet_addr addr port =
      (init_server-Opens, connect_server-Connects inet_addr addr port)

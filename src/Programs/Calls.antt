-- ===== src/Programs/Calls.antt =====
-- The system calls of the server's `main`, in src/hyperkv.c, and what they leave.
use hyperkv.Base.{
  ℕ, zero, suc, ◌⊎◌, true, false, List, [], ◌∷◌, ◌++◌, ◌≡◌, ℤ, pos, ltb_ℤ, ◌>>=◌, Str, codes, Safe,
}
use hyperkv.Network.{Call, Outcome, Sys, Event}
use hyperkv.Network.Traces.{Opens}
use hyperkv.Programs.{Ran}
use hyperkv.Release.{Block}
use hyperkv.Release.Shutdown.{StoreOwns}
use hyperkv.Server.Safe.{Arrived}
use hyperkv.Value.{Store}
use hyperkv.Value.Safe.{IsSafeStore}

-- The calls of the loop, with how the program ends. It accepts one client after the other on its
-- socket, and closes a client's before it accepts the next; a shutdown closes the server's.
pub data Serving (sfd : ℤ) : Outcome (Unit {0}) → List Event → Type 0 where
  idle : Serving sfd (Outcome.returns tt) []
  refused :
      {fd : ℤ}
      → ltb_ℤ fd (pos 0) ≡ true
      → Serving sfd
          (Outcome.exits 1 (codes "failed to accept connection"))
          ((Call.accept sfd, fd) ∷ [])
  busy :
      {cfd : ℤ}
      → ltb_ℤ cfd (pos 0) ≡ false
      → Serving sfd (Outcome.returns tt) ((Call.accept sfd, cfd) ∷ [])
  stopped :
      {cfd r : ℤ}
      → ltb_ℤ cfd (pos 0) ≡ false
      → Serving sfd (Outcome.exits 0 []) ((Call.accept sfd, cfd) ∷ (Call.close sfd, r) ∷ [])
  next :
      {cfd r : ℤ} {end : Outcome (Unit {0})} {rest : List Event}
      → ltb_ℤ cfd (pos 0) ≡ false
      → Serving sfd end rest
      → Serving sfd end ((Call.accept sfd, cfd) ∷ (Call.close cfd, r) ∷ rest)

-- The table is released before the server exits with code 0, and not otherwise.
abbrev pub Released : Outcome (Unit {0}) → Store → List Block → Type 0
Released (Outcome.exits zero message) ht freed = StoreOwns ht freed
Released (Outcome.exits (suc code) message) ht freed = freed ≡ []
Released (Outcome.returns _) ht freed = freed ≡ []

-- On every connection each buffer holds a message that `readline` reads.
abbrev pub AllArrived : List (List (List ℕ)) → Type 0
AllArrived [] = Unit
AllArrived (buffers ∷ connections) =
    ((messages : List Str) × Arrived buffers messages) × AllArrived connections

module _ {W : Type 0} (sys : Sys W) (sfd : ℤ) where
  -- What the loop adds to the calls, and the table that it leaves.
  abbrev Runs : List Event → Ran (W × List Event) → Type 0
  Runs events ran =
      ((more : List Event) × (ran.world.1 ≡ events ++ more) × Serving sfd ran.end more)
      × IsSafeStore ran.served.store
      × Released ran.end ran.served.store ran.freed

module _ {W : Type 0} (sys : Sys W) where
  -- The calls of the whole program: those that open the socket, and those of the loop behind them.
  abbrev pub Calls : Outcome (Unit {0}) → List Event → Type 0
  Calls end events =
      ((code : ℕ) × (message : Str) × Opens (Outcome.exits code message) events
        × (end ≡ Outcome.exits code message))
      ⊎ ((sfd : ℤ) × (opening : List Event) × (more : List Event) × Opens (Outcome.returns sfd)
            opening
          × (events ≡ opening ++ more)
          × Serving sfd end more)

  abbrev pub Sound : Ran (W × List Event) → Type 0
  Sound ran =
      Calls ran.end ran.world.1
      × IsSafeStore ran.served.store
      × Released ran.end ran.served.store ran.freed

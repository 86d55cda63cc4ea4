-- ===== src/Memory.antt =====
-- Allocation, in src/helper.c. `malloc` and `realloc` are parameters: they give an address, or NULL.
use hyperkv.Base.{ℕ, Option, none, some, codes, ◌==◌, if◌then◌else◌}
use hyperkv.Network.{Outcome}

abbrev pub no_memory : {A : Type 0} → Outcome A
no_memory = Outcome.exits 1 (codes "couldn't allocate memory")

-- An address, or the end of the program.
abbrev got : Option ℕ → Outcome (Option ℕ)
got none = no_memory
got (some p) = Outcome.returns (some p)

module _ {W : Type 0} where
  unfoldable pub dmalloc : (malloc : W → ℕ → W × Option ℕ) → W → ℕ → W × Outcome (Option ℕ)
  dmalloc malloc w size = let (w', p) = malloc w size in (w', got p)

  unfoldable pub drealloc :
      (realloc : W → Option ℕ → ℕ → W × Option ℕ) → W → Option ℕ → ℕ → W × Outcome (Option ℕ)
  drealloc realloc w p size =
      let (w', new_p) = realloc w p size in
      if size == 0 then (w, Outcome.returns none) else (w', got new_p)

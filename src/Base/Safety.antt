-- ===== src/Base/Safety.antt =====
-- Runs that stay inside the arrays, the heap and the fuel.
use mathlib.Core.Bool.{Bool, true, false}
use mathlib.Core.Option.{Option, none, some}
use mathlib.Core.Path.{◌≡◌, refl, sym, subst}
use hyperkv.Base.Tests.{if◌then◌else◌, ltb}
use hyperkv.Base.Faults.{Run, ok, fault, Fault, ◌>>=◌, Returns, int, int_max}
use Prim.Native.Nat.{ℕ}

-- A signed overflow, a read through NULL, and a cast to a wrong type are told apart from the faults
-- that a safe run does not end in: an access outside an array, one through a dangling pointer, and
-- running out of fuel.
abbrev pub IsLesser : Fault → Type 0
IsLesser Fault.overflow = Unit
IsLesser Fault.null_pointer = Unit
IsLesser Fault.type_confusion = Unit
IsLesser _ = ⊥

-- The run ends in a value that satisfies `P`, or in a lesser fault.
pub data Safe {A : Type 0} (P : A → Type 0) : Run A → Type 0 where
  returns : (a : A) → P a → Safe P (ok a)
  fails : (e : Fault) → IsLesser e → Safe P (fault e)

pub Safe-bind :
    {A B : Type 0} {P : A → Type 0} {Q : B → Type 0} {r : Run A} (f : A → Run B)
    → Safe P r
    → ((a : A) → P a → Safe Q (f a))
    → Safe Q (r >>= f)
Safe-bind f (Safe.returns a p) next = next a p
Safe-bind f (Safe.fails e lesser) next = Safe.fails e lesser

-- The continuations that look at what an optional result is.
pub Safe-option :
    {A B : Type 0} {Q : B → Type 0} (P : Option A → Type 0) (n : Run B) (s : A → Run B)
    → (P none → Safe Q n)
    → ((a : A) → P (some a) → Safe Q (s a))
    → (o : Option A) → P o
    → Safe Q (elim o [ none ↦ n | some a ↦ s a ])
Safe-option P n s first second none p = first p
Safe-option P n s first second (some a) p = second a p

module _ {A : Type 0} where
  pub Safe-map : {P Q : A → Type 0} {r : Run A} → Safe P r → ((a : A) → P a → Q a) → Safe Q r
  Safe-map (Safe.returns a p) weaken = Safe.returns a (weaken a p)
  Safe-map (Safe.fails e lesser) weaken = Safe.fails e lesser

  pub Safe-if :
      {P : A → Type 0} (x y : Run A) (b : Bool)
      → (b ≡ true → Safe P x)
      → (b ≡ false → Safe P y)
      → Safe P (if b then x else y)
  Safe-if x y true first second = first refl
  Safe-if x y false first second = second refl

  pub Safe-Returns : {P : A → Type 0} {r : Run A} → Returns r P → Safe P r
  Safe-Returns {P} (a, run, p) = subst (Safe P) (sym run) (Safe.returns a p)

pub int-Safe : (n : ℕ) → Safe (λ m. m ≡ n) (int n)
unfolding int
int-Safe n =
    Safe-if _ _ (ltb n int_max) (λ _. Safe.returns n refl) (λ _. Safe.fails Fault.overflow tt)

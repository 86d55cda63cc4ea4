-- ===== src/Base/Faults.antt =====
-- What a run of C code ends in: a value, or one of the faults that the source does not guard against.
use Prim.Native.Nat.{ℕ, zero, suc, ◌^◌, ◌<◌}
use mathlib.Core.List.{List, [], ◌∷◌}
use mathlib.Core.Path.{◌≡◌, refl, sym, ◌∙◌, subst}
use native.Mathlib.Omega.{arith}
use hyperkv.Base.Tests.{ltb, if◌then◌else◌}
use hyperkv.Base.Lists.{length, get_or}

-- `overflow` is a signed overflow, `out_of_bounds` an access outside an array, `null_pointer` a read
-- through NULL, `use_after_free` one through a dangling pointer, `type_confusion` a cast of a `void *`
-- to a type that it does not point to; `out_of_fuel` is no behaviour of the code.
pub data Fault : Type 0 where
  overflow out_of_bounds null_pointer use_after_free type_confusion out_of_fuel : Fault

pub data Run {ℓ} (A : Type ℓ) : Type ℓ where
  fault : Fault → Run A
  ok : A → Run A

infixl 5 ◌>>=◌
abbrev pub ◌>>=◌ {ℓ κ} : {A : Type ℓ} {B : Type κ} (r : Run A) (rest : A → Run B) → Run B
fault e >>= rest = fault e
ok a >>= rest = rest a

-- The run ends normally, in a value that satisfies `P`.
abbrev pub Returns {ℓ κ} : {B : Type ℓ} (run : Run B) (holds : B → Type κ) → Type (ℓ ⊔ κ)
Returns {B} run holds = (result : B) × (run ≡ ok result) × holds result

abbrev pub int_max : ℕ
int_max = 2 ^ 31

-- A non-negative value of type `int`.
unfoldable pub int : ℕ → Run ℕ
int n = if ltb n int_max then ok n else fault Fault.overflow

pub int-ok : (n : ℕ) → n < int_max → int n ≡ ok n
unfolding int
int-ok n h = ground arith

-- The read `xs[i]`.
unfoldable pub at {ℓ} : {A : Type ℓ} → List A → ℕ → Run A
at [] i = fault Fault.out_of_bounds
at (x ∷ xs) zero = ok x
at (x ∷ xs) (suc i) = at xs i

pub at-get_or {ℓ} :
    {A : Type ℓ} (xs : List A) (i : ℕ) (d : A) → i < length xs → at xs i ≡ ok (get_or xs i d)
unfolding at
at-get_or (_ ∷ _) zero d low = refl
at-get_or (_ ∷ xs) (suc i) d low = at-get_or xs i d (omega arith)
at-get_or [] i d low = absurd (omega arith)

pub ok-injective {ℓ} : {A : Type ℓ} {a b : A} → ok a ≡ ok b → a ≡ b
ok-injective e = cc

-- A run has one outcome: what a total run returns satisfies its postcondition.
pub Returns-ok {ℓ κ} :
    {A : Type ℓ} (P : A → Type κ) {r : Run A} {a : A} → Returns r P → r ≡ ok a → P a
Returns-ok P (b, run, p) e = subst P (ok-injective (sym run ∙ e)) p

-- ===== src/Base/Floats.antt =====
-- What the program does with a `double`. The arithmetic is the platform's and stays a parameter;
-- a theorem that needs an order of the values names the laws that it uses.
use Prim.Native.Nat.{ℕ, ◌+◌, ◌-◌, ◌*◌, ◌/◌, ◌^◌}
use mathlib.Core.Path.{◌≡◌}
use mathlib.Core.Bool.{Bool, true, false}
use native.Mathlib.Omega.{arith}
use workload_compactor.Base.Tests.{leb, ltb}

pub record Double {ℓ} (W : Type ℓ) : Type ℓ where
  pub nought : W
  pub add : W → W → W
  pub sub : W → W → W
  pub mul : W → W → W
  pub div : W → W → W
  pub lt : W → W → Bool
  pub le : W → W → Bool
  pub infinity : W
  -- `(double)n` for an unsigned number.
  pub of_ℕ : ℕ → W

-- `<` is a strict order on the values that are not NaN, and every comparison with NaN is false.
pub record IsOrdered {ℓ} (W : Type ℓ) ⦃d : Double W⦄ : Type ℓ where
  pub lt_irrefl : (x : W) → d.lt x x ≡ false
  pub lt_trans : (x y z : W) → d.lt x y ≡ true → d.lt y z ≡ true → d.lt x z ≡ true

-- The laws can be met: whole units, with a subtraction that stops at 0.
instance abbrev pub units : Double ℕ
units = record {
  nought = 0;
  add = ◌+◌;
  sub = ◌-◌;
  mul = ◌*◌;
  div = ◌/◌;
  lt = ltb;
  le = leb;
  infinity = 2 ^ 1024;
  of_ℕ = λ n. n;
}

pub units-IsOrdered : IsOrdered ℕ
units-IsOrdered = ground arith

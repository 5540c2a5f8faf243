-- ===== src/Machine/Floats.antt =====
-- The operations on doubles that the sources use, as a parameter of the model. A double is given
-- by its 64-bit pattern. Converting a double to an integer type may be undefined.
use asm_studio.Prelude.{ℕ, Bool}
use asm_studio.Prelude.Int.{ℤ}
use asm_studio.Machine.Ub.{Ub}

pub record Floats : Type 0 where
  pub add : ℕ → ℕ → ℕ
  pub sub : ℕ → ℕ → ℕ
  pub mul : ℕ → ℕ → ℕ
  pub div : ℕ → ℕ → ℕ
  pub fmod : ℕ → ℕ → ℕ
  pub neg : ℕ → ℕ
  pub zero : ℕ
  pub lt : ℕ → ℕ → Bool
  pub le : ℕ → ℕ → Bool
  pub eq : ℕ → ℕ → Bool
  pub of_int64 : ℤ → ℕ
  pub of_uint64 : ℕ → ℕ
  pub to_int64 : ℕ → Ub ℤ
  pub to_uint64 : ℕ → Ub ℕ

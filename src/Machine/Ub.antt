-- ===== src/Machine/Ub.antt =====
-- Results of C++ code that may have no defined behaviour.
use asm_studio.Prelude.{Bool, if◌then◌else◌}

pub data Ub {ℓ} (A : Type ℓ) : Type ℓ where
  defined : A → Ub A
  undefined : Ub A

infixl 5 ◌>>=◌
abbrev pub ◌>>=◌ {ℓ κ} : {A : Type ℓ} {B : Type κ} → Ub A → (A → Ub B) → Ub B
defined a >>= f = f a
undefined >>= f = undefined

abbrev pub map_ub {ℓ κ} : {A : Type ℓ} {B : Type κ} → (A → B) → Ub A → Ub B
map_ub f (defined a) = defined (f a)
map_ub f undefined = undefined

-- A value under the condition that makes the code defined.
abbrev pub when_defined {ℓ} : {A : Type ℓ} → Bool → A → Ub A
when_defined ok a = if ok then defined a else undefined

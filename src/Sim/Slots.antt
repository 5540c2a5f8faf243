-- ===== src/Sim/Slots.antt =====
-- The value slots of a frame, `readValue` and `writeValue` of src/sim/Simulator.cpp.
use native.Mathlib.Decide.{ℕ_discrete}
use asm_studio.Prelude.{
  ℕ, zero, suc, ◌+◌, ◌-◌, ◌<◌, ◌≡◌, refl, ap, Option, none, some, List, [], ◌∷◌, ◌++◌, arith,
  if◌then◌else◌, ◌==◌, length, get_elem?, set, replicate, length-append, get_elem?-set_self,
  get_elem?-set_ne,
}
use asm_studio.Ir.{RegValue, int64, uint64, double, bool, IrConstant, IrFunction, constant_at}
use asm_studio.Sim.Ops.{ir_constant_to_reg_value}
use asm_studio.Sim.State.{
  ok, SimFrame, read_value, write_value, slot_or_constant, constant_or_mismatch, grown,
  initial_frame,
}

pub ir_constant_to_reg_value_lem : (c : IrConstant) → ir_constant_to_reg_value c ≡ c
unfolding ir_constant_to_reg_value
ir_constant_to_reg_value_lem (int64 z) = refl
ir_constant_to_reg_value_lem (uint64 n) = refl
ir_constant_to_reg_value_lem (double d) = refl
ir_constant_to_reg_value_lem (bool b) = refl

length-replicate {ℓ} : {A : Type ℓ} (n : ℕ) (a : A) → length (replicate n a) ≡ n
length-replicate zero a = refl
length-replicate (suc n) a = ap suc (length-replicate n a)

lt_length-grown : (values : List (Option RegValue)) (id : ℕ) → id < length (grown values (id + 1))
lt_length-grown values id = omega (
  arith,
  length-append values (replicate (id + 1 - length values) none),
  length-replicate {0} {A = Option RegValue} (id + 1 - length values) none,
)

slot-replicate :
    (n j : ℕ) (c : Option IrConstant)
    → slot_or_constant (get_elem? (replicate n none) j) c ≡ constant_or_mismatch c
slot-replicate zero j c = refl
slot-replicate (suc n) zero c = refl
slot-replicate (suc n) (suc j) c = slot-replicate n j c

-- Empty slots at the end read like slots that are not there.
slot-append :
    (values : List (Option RegValue)) (n j : ℕ) (c : Option IrConstant)
    → slot_or_constant (get_elem? (values ++ replicate n none) j) c
      ≡ slot_or_constant (get_elem? values j) c
slot-append [] n j c = slot-replicate n j c
slot-append (v ∷ values) n zero c = refl
slot-append (v ∷ values) n (suc j) c = slot-append values n j c

-- A slot that is written reads as what was written, and every other slot as before, also where
-- the vector of slots has to grow.
pub read_value-write_value :
    (frame : SimFrame) (function : IrFunction) (id j : ℕ) (value : RegValue)
    → read_value (write_value frame id value) function j
      ≡ (if id == j then ok value else read_value frame function j)
unfolding read_value write_value
read_value-write_value frame function id j value = elim (ℕ_discrete id j) [
  | yes e ↦
      let w : get_elem? (set (grown frame.values (id + 1)) id (some value)) id ≡ some (some value) =
        get_elem?-set_self (grown frame.values (id + 1)) id (some value)
          (lt_length-grown frame.values id) in
      ground (arith, e, w)
  | no d ↦ ground (
    arith,
    get_elem?-set_ne (grown frame.values (id + 1)) id j (some value) d,
    slot-append frame.values (id + 1 - length frame.values) j (constant_at function.values j),
    d,
  )
]

-- In a fresh frame every identifier reads as its constant.
pub read_value-initial_frame :
    (callee function : IrFunction) (j : ℕ)
    → read_value (initial_frame callee) function j
      ≡ constant_or_mismatch (constant_at function.values j)
unfolding read_value initial_frame
read_value-initial_frame callee function j =
    slot-replicate (length callee.values) j (constant_at function.values j)

-- ===== src/Codegen/Registers.antt =====
-- src/codegen/Arm64Emitter.cpp: `RegAlloc`, from values to scratch registers, and sorted sets of
-- names as std::set keeps them.
use asm_studio.Prelude.{
  ℕ, ◌+◌, Bool, true, false, Option, none, some, List, [], ◌∷◌, ◌++◌, ltb, ◌==◌, if◌then◌else◌,
  get_elem?, lookup_id,
}
use asm_studio.Text.{Text, codes}
use asm_studio.Text.Decimal.{format_nat}

abbrev pub scratch_registers : List Text
scratch_registers =
    codes "x9"
    ∷ codes "x10"
    ∷ codes "x11"
    ∷ codes "x12"
    ∷ codes "x13"
    ∷ codes "x14"
    ∷ codes "x15"
    ∷ []

-- `register_map` has the last entry first; `used_registers` is sorted.
pub record RegAlloc : Type 0 where
  pub register_map : List (ℕ × Text)
  pub used_registers : List Text
  pub next_register_index : ℕ

abbrev pub no_registers : RegAlloc
no_registers = record { register_map = []; used_registers = []; next_register_index = 0 }

-- `a < b` for std::string.
abbrev pub text_ltb : Text → Text → Bool
text_ltb [] [] = false
text_ltb [] (b ∷ bs) = true
text_ltb (a ∷ as') [] = false
text_ltb (a ∷ as') (b ∷ bs) =
    let rest : Bool = text_ltb as' bs in if ltb a b then true else (if a == b then rest else false)

abbrev pub text_eq : Text → Text → Bool
text_eq [] [] = true
text_eq (a ∷ as') (b ∷ bs) = let rest : Bool = text_eq as' bs in if a == b then rest else false
text_eq _ _ = false

-- `insert` of a std::set.
unfoldable pub insert_name : Text → List Text → List Text
insert_name name [] = name ∷ []
insert_name name (other ∷ names) =
    let later : List Text = other ∷ insert_name name names in
    if text_ltb name other
    then name ∷ other ∷ names
    else (if text_eq name other then other ∷ names else later)

-- The register that the index names: a scratch register, or past them `x` and 16 more than the index.
abbrev pub scratch_or_further : ℕ → Option Text → Text
scratch_or_further index (some name) = name
scratch_or_further index none = codes "x" ++ format_nat (16 + index)

unfoldable pub register_name : ℕ → Text
register_name index = scratch_or_further index (get_elem? scratch_registers index)

abbrev pub alloc_found : RegAlloc → ℕ → Option Text → Text × RegAlloc
alloc_found r id (some name) =
    (name, record r { used_registers = insert_name name r.used_registers })
alloc_found r id none =
    let name : Text = register_name r.next_register_index in
    (
      name,
      record {
        register_map = (id, name) ∷ r.register_map;
        used_registers = insert_name name r.used_registers;
        next_register_index = r.next_register_index + 1;
      },
    )

-- `RegAlloc::alloc`
unfoldable pub alloc : RegAlloc → ℕ → Text × RegAlloc
alloc r id = alloc_found r id (lookup_id id r.register_map)

abbrev pub name_or_x9 : Option Text → Text
name_or_x9 none = codes "x9"
name_or_x9 (some name) = name

-- `RegAlloc::get`
unfoldable pub get : RegAlloc → ℕ → Text
get r id = name_or_x9 (lookup_id id r.register_map)

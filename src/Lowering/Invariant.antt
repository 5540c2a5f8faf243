-- ===== src/Lowering/Invariant.antt =====
-- The invariant of `LoweringContext` of src/ir/Lowering.cpp, and what each of its operations does
-- to it.
use asm_studio.Prelude.{
  ℕ, ◌+◌, ◌≤◌, ◌<◌, ◌≡◌, refl, sym, ap, ◌∙◌, true, Option, none, some, List, [], ◌∷◌, ◌++◌, String,
  arith, length, get_elem?, length-append, get_elem?-append, get_elem?-append_end, All, All-map,
  is_some, lookup_id,
}
use asm_studio.Support.Types.{DataType}
use asm_studio.Ir.{IrConstant, IrValue, IrInstr, IrBlock, constant_at, constant_of}
use asm_studio.Ir.Constants.{IsSoundInstr}
use asm_studio.Lowering.Context.{
  L, Lowered, ok, logic_error, undefined, LoweringContext, then_do, alloc_value, lookup_name,
  next_loop_index, next_if_index,
}

-- An instruction that refers to values and blocks that are there, and is sound for the constants.
pub record IsValidInstr (blocks : ℕ) (values : List IrValue) (i : IrInstr) : Type 0 where
  pub inputs : All (λ v. v < length values) i.inputs
  pub output : (o : ℕ) → i.output ≡ some o → o < length values
  pub true_target : (t : ℕ) → i.true_target ≡ some t → t < blocks
  pub false_target : (t : ℕ) → i.false_target ≡ some t → t < blocks
  pub sound : IsSoundInstr values i

abbrev pub IsValidBlock : ℕ → List IrValue → IrBlock → Type 0
IsValidBlock blocks values block = All (IsValidInstr blocks values) block.instrs

pub record IsWellFormed (c : LoweringContext) : Type 0 where
  pub values_counted : c.next_value ≡ length c.function.values
  pub blocks_counted : c.next_block ≡ length c.function.blocks
  pub indexed : (id : ℕ) → id < length c.function.blocks → lookup_id id c.block_index ≡ some id
  pub unindexed : (id : ℕ) → length c.function.blocks ≤ id → lookup_id id c.block_index ≡ none
  pub numbered : (n : ℕ) (b : IrBlock) → get_elem? c.function.blocks n ≡ some b → b.id ≡ n
  pub valid : All (IsValidBlock (length c.function.blocks) c.function.values) c.function.blocks
  pub slots :
      (name : String) (id : ℕ)
      → lookup_name name c.variable_table ≡ some id
      → (id < length c.function.values) × (constant_at c.function.values id ≡ none)

-- Lowering only adds: values with their constants, blocks and names stay.
pub record Extends (c c' : LoweringContext) : Type 0 where
  pub values_kept : length c.function.values ≤ length c'.function.values
  pub blocks_kept : length c.function.blocks ≤ length c'.function.blocks
  pub constants_kept :
      (id : ℕ)
      → id < length c.function.values
      → constant_at c'.function.values id ≡ constant_at c.function.values id
  pub names_kept :
      (name : String)
      → is_some (lookup_name name c.variable_table) ≡ true
      → is_some (lookup_name name c'.variable_table) ≡ true
  pub title_kept : c'.function.name ≡ c.function.name

pub Extends-refl : (c : LoweringContext) → Extends c c
Extends-refl c = record {
  values_kept = omega arith;
  blocks_kept = omega arith;
  constants_kept = λ id h. refl;
  names_kept = λ name h. h;
  title_kept = refl;
}

pub Extends-trans : (c d e : LoweringContext) → Extends c d → Extends d e → Extends c e
Extends-trans c d e h k = record {
  values_kept = omega (arith, h.values_kept, k.values_kept);
  blocks_kept = omega (arith, h.blocks_kept, k.blocks_kept);
  constants_kept =
      λ id l. k.constants_kept id (omega (arith, h.values_kept)) ∙ h.constants_kept id l;
  names_kept = λ name l. k.names_kept name (h.names_kept name l);
  title_kept = k.title_kept ∙ h.title_kept;
}

-- The code returns: no exception and nothing undefined, the invariant holds, the context has only
-- grown, and the result is as stated.
abbrev pub Returns :
    {A : Type 0}
    → LoweringContext
    → (A → LoweringContext → Type 0)
    → Lowered (A × LoweringContext)
    → Type 0
Returns c P (ok (a, c')) = IsWellFormed c' × Extends c c' × P a c'
Returns c P logic_error = ⊥
Returns c P undefined = ⊥

pub Returns-bind :
    {A B : Type 0} (c : LoweringContext) (P : A → LoweringContext → Type 0)
    (Q : B → LoweringContext → Type 0) (r : Lowered (A × LoweringContext)) (f : A → L B)
    → Returns c P r
    → ((a : A) (d : LoweringContext) → IsWellFormed d → Extends c d → P a d → Returns d Q (f a d))
    → Returns c Q (then_do r f)
Returns-bind {B = B} c P Q (ok (a, d)) f h k = later (f a d) (k a d h.0 h.1 h.2)
  where
    later : (r : Lowered (B × LoweringContext)) → Returns d Q r → Returns c Q r
    later (ok (b, e)) l = (l.0, Extends-trans c d e h.1 l.1, l.2)
    later logic_error l = l
    later undefined l = l
Returns-bind c P Q logic_error f h k = h
Returns-bind c P Q undefined f h k = h

-- What holds of the result implies something else.
pub Returns-map :
    {A : Type 0} (c : LoweringContext) (P Q : A → LoweringContext → Type 0)
    (r : Lowered (A × LoweringContext))
    → Returns c P r
    → ((a : A) (d : LoweringContext) → IsWellFormed d → Extends c d → P a d → Q a d)
    → Returns c Q r
Returns-map c P Q (ok (a, d)) h k = (h.0, h.1, k a d h.0 h.1 h.2)
Returns-map c P Q logic_error h k = h
Returns-map c P Q undefined h k = h

-- Validity in a larger function.
pub IsValidInstr-mono :
    (blocks blocks' : ℕ) (values values' : List IrValue) (i : IrInstr)
    → blocks ≤ blocks'
    → length values ≤ length values'
    → ((id : ℕ) → id < length values → constant_at values' id ≡ constant_at values id)
    → IsValidInstr blocks values i
    → IsValidInstr blocks' values' i
IsValidInstr-mono blocks blocks' values values' i hb hv hc v = record {
  inputs = All-map _ _ (λ x h. omega arith) i.inputs v.inputs;
  output = λ o e. omega (arith, v.output o e);
  true_target = λ t e. omega (arith, v.true_target t e);
  false_target = λ t e. omega (arith, v.false_target t e);
  sound = λ o c e k. v.sound o c e (sym (hc o (v.output o e)) ∙ k);
}

pub blocks_mono :
    (blocks blocks' : ℕ) (values values' : List IrValue) (bs : List IrBlock)
    → blocks ≤ blocks'
    → length values ≤ length values'
    → ((id : ℕ) → id < length values → constant_at values' id ≡ constant_at values id)
    → All (IsValidBlock blocks values) bs
    → All (IsValidBlock blocks' values') bs
blocks_mono blocks blocks' values values' bs hb hv hc =
    All-map _ _
      (λ b. All-map _ _ (λ i. IsValidInstr-mono blocks blocks' values values' i hb hv hc) b.instrs)
      bs

constant_at-append :
    (values : List IrValue) (v : IrValue) (id : ℕ)
    → id < length values
    → constant_at (values ++ v ∷ []) id ≡ constant_at values id
constant_at-append values v id h = ap constant_of (get_elem?-append values (v ∷ []) id h)

module _ (c : LoweringContext) (w : IsWellFormed c) where
  -- The new value has the next identifier and the constant that was given.
  pub alloc_value-Returns :
      (type : DataType) (k : Option IrConstant)
      → Returns c
          (λ id d. (id < length d.function.values) × (constant_at d.function.values id ≡ k))
          (alloc_value type k c)
  unfolding alloc_value
  alloc_value-Returns type k =
      let v : IrValue = record { type = type; constant = k } in
      let grown : length (c.function.values ++ v ∷ []) ≡ length c.function.values + 1 =
        length-append c.function.values (v ∷ []) in
      let kept : (id : ℕ)
          → id < length c.function.values
          → constant_at (c.function.values ++ v ∷ []) id ≡ constant_at c.function.values id =
        constant_at-append c.function.values v in
      (
        record {
          values_counted = omega (arith, w.values_counted, grown);
          blocks_counted = w.blocks_counted;
          indexed = w.indexed;
          unindexed = w.unindexed;
          numbered = w.numbered;
          valid =
              blocks_mono _ _ c.function.values (c.function.values ++ v ∷ []) c.function.blocks
                (omega arith) (omega (arith, grown)) kept w.valid;
          slots = λ name id e. (
            omega (arith, grown, (w.slots name id e).0),
            kept id (w.slots name id e).0 ∙ (w.slots name id e).1,
          );
        },
        record {
          values_kept = omega (arith, grown);
          blocks_kept = omega arith;
          constants_kept = kept;
          names_kept = λ name h. h;
          title_kept = refl;
        },
        (
          omega (arith, w.values_counted, grown),
          ap (constant_at (c.function.values ++ v ∷ [])) w.values_counted
              ∙ ap constant_of (get_elem?-append_end c.function.values v),
        ),
      )

  -- Nothing but the counters of loops and branches.
  pub next_loop_index-Returns : Returns c (λ n d. Unit) (next_loop_index c)
  unfolding next_loop_index
  next_loop_index-Returns = (
    record {
      values_counted = w.values_counted;
      blocks_counted = w.blocks_counted;
      indexed = w.indexed;
      unindexed = w.unindexed;
      numbered = w.numbered;
      valid = w.valid;
      slots = w.slots;
    },
    record {
      values_kept = omega arith;
      blocks_kept = omega arith;
      constants_kept = λ id h. refl;
      names_kept = λ n h. h;
      title_kept = refl;
    },
    tt,
  )

  pub next_if_index-Returns : Returns c (λ n d. Unit) (next_if_index c)
  unfolding next_if_index
  next_if_index-Returns = (
    record {
      values_counted = w.values_counted;
      blocks_counted = w.blocks_counted;
      indexed = w.indexed;
      unindexed = w.unindexed;
      numbered = w.numbered;
      valid = w.valid;
      slots = w.slots;
    },
    record {
      values_kept = omega arith;
      blocks_kept = omega arith;
      constants_kept = λ id h. refl;
      names_kept = λ n h. h;
      title_kept = refl;
    },
    tt,
  )

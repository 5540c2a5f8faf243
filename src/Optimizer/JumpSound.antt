-- ===== src/Optimizer/JumpSound.antt =====
-- src/transforms/passes/JumpSimplificationPass.cpp against src/sim/Simulator.cpp: single
-- instructions, blocks and functions.
use mathlib.Core.Option.{map as map_option}
use asm_studio.Prelude.{
  ℕ, zero, suc, ◌≡◌, refl, sym, ap, ◌∙◌, Bool, false, String, Option, none, some, List, [], ◌∷◌,
  arith, if◌then◌else◌, get_elem?, lookup_id,
}
use asm_studio.Machine.Floats.{Floats}
use asm_studio.Ir.{
  IrOp, IrConstant, IrValue, IrInstr, IrFunction, IrBlock, constant_at, is_br_true, entry_block,
}
use asm_studio.Sim.Ops.{is_taken}
use asm_studio.Sim.State.{
  ok, SimFrame, FunctionCache, Setup, Simulator, read_value, find_function_cache, find_block,
  initial_frame, cached_block,
}
use asm_studio.Sim.Handlers.{
  handle_copy_op, handle_binary_op, handle_unary_op, handle_cmp_op, handle_jump_op,
  handle_branch_op, jump_to,
}
use asm_studio.Sim.Step.{
  Stepped, with_stack, resume, dispatch, step_instr, step_block, step_function, step_stack,
  step_one, handle_call_op, enter, call_named,
}
use asm_studio.Sim.Coherence.{IsCoherent}
use asm_studio.Optimizer.Jumps.{
  jump_simplification, simplify_blocks, simplify_instrs, simplify_instr, simplify_inputs,
  decide_branch, jump_of,
}

module _ (f : Floats) where
  abbrev pub simplified : IrFunction → IrFunction
  simplified function = (jump_simplification f function).0

  abbrev pub simplified_cache : FunctionCache → FunctionCache
  simplified_cache cache = record cache { function = simplified cache.function }

  abbrev pub simplified_block : List IrValue → IrBlock → IrBlock
  simplified_block values block = record block {
    instrs = (simplify_instrs f values block.instrs).0;
  }

  pub initial_frame-simplified :
      (callee : IrFunction) → initial_frame (simplified callee) ≡ initial_frame callee
  unfolding initial_frame jump_simplification entry_block simplify_blocks
  initial_frame-simplified callee = go callee.blocks
    where
      go :
          (blocks : List IrBlock)
          → initial_frame (simplified (record callee { blocks = blocks }))
            ≡ initial_frame (record callee { blocks = blocks })
      go [] = refl
      go (block ∷ blocks) = refl

  pub get_elem?-simplify_instrs :
      (values : List IrValue) (instrs : List IrInstr) (n : ℕ)
      → get_elem? (simplify_instrs f values instrs).0 n
        ≡ map_option (λ i. (simplify_instr f values i).0) (get_elem? instrs n)
  unfolding simplify_instrs
  get_elem?-simplify_instrs values [] n = refl
  get_elem?-simplify_instrs values (i ∷ instrs) zero = refl
  get_elem?-simplify_instrs values (i ∷ instrs) (suc n) = get_elem?-simplify_instrs values instrs n

  get_elem?-simplify_blocks :
      (values : List IrValue) (blocks : List IrBlock) (n : ℕ)
      → get_elem? (simplify_blocks f values blocks).0 n
        ≡ map_option (simplified_block values) (get_elem? blocks n)
  unfolding simplify_blocks
  get_elem?-simplify_blocks values [] n = refl
  get_elem?-simplify_blocks values (b ∷ blocks) zero = refl
  get_elem?-simplify_blocks values (b ∷ blocks) (suc n) = get_elem?-simplify_blocks values blocks n

  pub find_block-simplified :
      (cache : FunctionCache) (id : ℕ)
      → find_block (simplified_cache cache) id
        ≡ map_option (simplified_block cache.function.values) (find_block cache id)
  unfolding find_block jump_simplification
  find_block-simplified cache id = go (lookup_id id cache.block_index_by_id)
    where
      go :
          (index : Option ℕ)
          → cached_block (simplify_blocks f cache.function.values cache.function.blocks).0 index
            ≡ map_option
                (simplified_block cache.function.values)
                (cached_block cache.function.blocks index)
      go none = refl
      go (some index) = get_elem?-simplify_blocks cache.function.values cache.function.blocks index

  -- What a decided branch does at a frame in which the condition reads as its constant.
  handle_branch_op-taken :
      (frame : SimFrame) (i : IrInstr) (function : IrFunction) (input : ℕ) (inputs : List ℕ)
      (c : IrConstant)
      → i.inputs ≡ input ∷ inputs
      → read_value frame function input ≡ ok c
      → handle_branch_op f frame i function
        ≡ ok (jump_to frame (if is_taken f c then i.true_target else i.false_target))
  unfolding handle_branch_op
  handle_branch_op-taken frame i function input inputs c e r = ground (arith, e, r)

  -- `c'` is the simplified setup, `c` the original.
  module _ (c c' : Setup)
      (same : (name : String)
        → find_function_cache c' name
          ≡ map_option simplified_cache (find_function_cache c name)) where
    handle_call_op-simplified :
        (s : Simulator) (i : IrInstr) → handle_call_op c' s i ≡ handle_call_op c s i
    unfolding handle_call_op
    handle_call_op-simplified s i = named i.callee
      where
        entered :
            (cache : Option FunctionCache)
            → enter s (map_option simplified_cache cache) ≡ enter s cache
        entered none = refl
        entered (some cache) =
            ap {B = Stepped}
              (λ frame.
                (with_stack s (frame ∷ s.state.call_stack), ok (mathlib.Core.Bool.not s.done)))
              (initial_frame-simplified cache.function)

        named : (callee : Option String) → call_named c' s callee ≡ call_named c s callee
        named none = refl
        named (some name) = ap (enter s) (same name) ∙ entered (find_function_cache c name)

    module _ (s : Simulator) (frame : SimFrame) (rest : List SimFrame) (function : IrFunction) where
      -- An instruction does the same in the simplified function, which has the same values.
      dispatch-same :
          (i : IrInstr) (op : IrOp)
          → dispatch f c' s frame rest (simplified function) i op
            ≡ dispatch f c s frame rest function i op
      unfolding dispatch jump_simplification read_value handle_copy_op handle_binary_op
          handle_unary_op handle_cmp_op handle_branch_op asm_studio.Sim.Step.handle_ret_op
      dispatch-same i IrOp.call = handle_call_op-simplified (with_stack s (frame ∷ rest)) i
      dispatch-same i IrOp.ret = refl
      dispatch-same i _ = refl

      dispatch-unchanged :
          (i : IrInstr) (r : IrInstr × Bool)
          → r.0 ≡ i
          → dispatch f c' s frame rest (simplified function) r.0 r.0.op
            ≡ dispatch f c s frame rest function i i.op
      dispatch-unchanged i r e =
          ap (λ (j : IrInstr). dispatch f c' s frame rest (simplified function) j j.op) e
          ∙ dispatch-same i i.op

      taken_to :
          (i : IrInstr) (k : IrConstant)
          → handle_branch_op f frame i function
            ≡ ok (jump_to frame (if is_taken f k then i.true_target else i.false_target))
          → dispatch f c' s frame rest (simplified function) (jump_of i (is_taken f k)) IrOp.jmp
            ≡ dispatch f c s frame rest function i IrOp.br_true
      unfolding dispatch handle_jump_op
      taken_to i k e = sym (ap (resume s frame rest) e)

      dispatch-simplify_inputs :
          (i : IrInstr) (inputs : List ℕ)
          → i.inputs ≡ inputs
          → i.op ≡ IrOp.br_true
          → IsCoherent function frame
          → dispatch f c' s frame rest
              (simplified function)
              (simplify_inputs f function.values i inputs).0
              (simplify_inputs f function.values i inputs).0.op
            ≡ dispatch f c s frame rest function i i.op
      dispatch-simplify_inputs i [] e b h = dispatch-unchanged i (i, false) refl
      dispatch-simplify_inputs i (input ∷ inputs) e b h =
          go (constant_at function.values input) refl
        where
          go :
              (k : Option IrConstant)
              → constant_at function.values input ≡ k
              → dispatch f c' s frame rest
                  (simplified function)
                  (decide_branch f i k).0
                  (decide_branch f i k).0.op
                ≡ dispatch f c s frame rest function i i.op
          go none e' = dispatch-unchanged i (i, false) refl
          go (some k) e' =
              taken_to i k (handle_branch_op-taken frame i function input inputs k e (h input k e'))
              ∙ ap (dispatch f c s frame rest function i) (sym b)

      pub dispatch-simplify_instr :
          (i : IrInstr)
          → IsCoherent function frame
          → dispatch f c' s frame rest
              (simplified function)
              (simplify_instr f function.values i).0
              (simplify_instr f function.values i).0.op
            ≡ dispatch f c s frame rest function i i.op
      unfolding simplify_instr
      dispatch-simplify_instr i h = go i.op refl
        where
          go :
              (op : IrOp)
              → i.op ≡ op
              → dispatch f c' s frame rest
                  (simplified function)
                  (if is_br_true op
                    then simplify_inputs f function.values i i.inputs
                    else (i, false)).0
                  (if is_br_true op
                    then simplify_inputs f function.values i i.inputs
                    else (i, false)).0.op
                ≡ dispatch f c s frame rest function i i.op
          go IrOp.br_true e = dispatch-simplify_inputs i i.inputs refl e h
          go IrOp.const e = dispatch-unchanged i (i, false) refl
          go _ e = dispatch-unchanged i (i, false) refl

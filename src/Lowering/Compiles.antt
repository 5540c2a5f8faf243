-- ===== src/Lowering/Compiles.antt =====
-- Whole functions of src/ir/Lowering.cpp: their code from the first frame that the simulator makes.
use mathlib.Core.Path.{subst}
use mathlib.Core.List.{append-nil}
use asm_studio.Prelude.{
  ℕ, ◌<◌, ◌≡◌, refl, sym, ap, ◌∙◌, true, Option, none, some, List, [], ◌∷◌, String, arith, length,
  get_elem?,
}
use asm_studio.Machine.Floats.{Floats}
use asm_studio.Ir.{IrInstr, IrBlock, IrFunction, rebuild_block_index, entry_block}
use asm_studio.Dsl.Builder.{Function, statements}
use asm_studio.Dsl.Start.{no_values, first_env, reads_set}
use asm_studio.Dsl.Meaning.{Env, Signal, goes_on, returns, Run, exec_stmts}
use asm_studio.Sim.State.{ok, err, undefined, SimFrame, read_value, initial_frame, entry_id}
use asm_studio.Lowering.Context.{Lowered, ok, logic_error, undefined, LoweringContext}
use asm_studio.Lowering.Function.{
  immediately_assigned_variables, initial_context, lower_body, lower_function, finish,
}
use asm_studio.Lowering.Invariant.{IsWellFormed, Returns, Returns-bind, Returns-map}
use asm_studio.Lowering.WellFormed.{
  declare_variables-Returns, initial_context-IsWellFormed, LowersTo,
}
use asm_studio.Lowering.Valid.{HasBlock}
use asm_studio.Lowering.Emitted.{instrs_at}
use asm_studio.Lowering.Walks.{code_at, instr_at}
use asm_studio.Lowering.Endings.{RunEnds, RunEnds-after, Contains}
use asm_studio.Lowering.Growth.{Contains-Grows, NewBlock, alloc_block-NewBlock}
use asm_studio.Lowering.Performs.{SignalAt, Distinct, ret_instr}
use asm_studio.Lowering.StmtMeaning.{stmts_slots}
use asm_studio.Lowering.Refines.{lower_statements-Performs}
use asm_studio.Lowering.Declared.{declared_env, declare_variables-SetsUp}
use asm_studio.Lowering.FirstValues.{declared_env-first_env}
use asm_studio.Lowering.Covers.{stmts_slots-Covers, named_table, named_table-Covers}

Returns-both :
    {A : Type 0} (c : LoweringContext) (P Q : A → LoweringContext → Type 0)
    (r : Lowered (A × LoweringContext))
    → Returns c P r
    → Returns c Q r
    → Returns c (λ a d. P a d × Q a d) r
Returns-both c P Q (ok (a, d)) h k = (h.0, h.1, (h.2, k.2))
Returns-both c P Q logic_error h k = h
Returns-both c P Q undefined h k = h

-- The values of the variables that the declarations leave.
abbrev declarations_env : Function → Env
declarations_env function =
    declared_env (immediately_assigned_variables (statements function)) function.vars no_values

-- What is meant where the frame is at the start of a function.
abbrev BodyPerforms : Floats → Function → ℕ → LoweringContext → Type 0
BodyPerforms f function b d =
    (g : IrFunction) (n : ℕ) (frame : SimFrame)
    → Contains g d
    → frame.block ≡ 0
    → frame.pc ≡ 0
    → RunEnds f g frame (exec_stmts f n (statements function) (declarations_env function))
        (SignalAt g d b)

lower_body-Performs :
    (f : Floats) (label : String → ℕ → String) (function : Function)
    → stmts_slots (named_table function.vars) (statements function) ≡ true
    → Returns
        (initial_context function.name)
        (λ b d. BodyPerforms f function b d × HasBlock d b)
        (lower_body label function (initial_context function.name))
unfolding lower_body
lower_body-Performs f label function h =
    let c : LoweringContext = initial_context function.name in
    let w : IsWellFormed c = initial_context-IsWellFormed function.name in
    let P : ℕ → LoweringContext → Type 0 = λ b d. BodyPerforms f function b d × HasBlock d b in
    Returns-bind c (NewBlock 0 c) P _ _ (alloc_block-NewBlock c 0 "entry" w) λ entry c1 w1 x1 p1.
      let hb : HasBlock c1 entry = omega (arith, p1.is_next, p1.counted) in
      Returns-bind c1 _ P _ _
        (Returns-both c1 _ _ _
          (declare_variables-Returns c1 entry (immediately_assigned_variables (statements function))
            function.vars w1 hb)
          (declare_variables-SetsUp f entry c1
            (immediately_assigned_variables (statements function)) function.vars w1 hb))
        λ u c2 w2 x2 p2.
          Returns-map c2 _ P _
            (lower_statements-Performs f label c2 entry (statements function) w2
              (omega (arith, hb, x2.blocks_kept))
              (p2.1.distinct (subst Distinct (sym p1.grows.names) λ n n' id k k'. cc))
              (stmts_slots-Covers (statements function) _ _
                (named_table-Covers function.vars c2 p2.0) h))
            λ b d wd y q. (
              λ g n frame contains at_block at_pc.
                  let earlier : Contains g c2 = Contains-Grows g entry c2 d q.grows contains in
                  let (m, frame', walked, (at, agreed)) =
                    p2.1.leads g no_values frame earlier
                      (at_block ∙ sym p1.is_next, at_pc ∙ ap length (sym p1.nothing))
                      (λ name id value k s. cc) in
                  RunEnds-after f g frame frame' m _ _ walked
                    (q.performs g n _ frame' contains at agreed),
              q.in_range,
            )

-- How a function ends in its frame: where a block has no more instructions, which is an implicit
-- return, or at a return of the value.
abbrev pub Finishes : IrFunction → Signal → SimFrame → Type 0
Finishes g (goes_on env) frame = (frame.block < length g.blocks) × (instr_at g frame ≡ none)
Finishes g (returns none) frame = instr_at g frame ≡ some (ret_instr [])
Finishes g (returns (some value)) frame =
    (id : ℕ) × (instr_at g frame ≡ some (ret_instr (id ∷ []))) × (read_value frame g id ≡ ok value)

SignalAt-Finishes :
    (g : IrFunction) (d : LoweringContext) (b : ℕ) (s : Signal) (frame : SimFrame)
    → ((n : ℕ) → code_at g n ≡ instrs_at d n)
    → b < length g.blocks
    → SignalAt g d b s frame
    → Finishes g s frame
SignalAt-Finishes g d b (goes_on env) frame same inside h = (
  omega (arith, inside, h.0.0),
  ap (λ n. get_elem? (code_at g n) frame.pc) h.0.0
      ∙ ap (λ l. get_elem? l frame.pc) (same b)
      ∙ ap (get_elem? (instrs_at d b)) h.0.1
      ∙ at_end (instrs_at d b),
)
  where
    at_end : (l : List IrInstr) → get_elem? l (length l) ≡ none
    at_end [] = refl
    at_end (i ∷ l) = at_end l
SignalAt-Finishes g d b (returns none) frame same inside h = h
SignalAt-Finishes g d b (returns (some value)) frame same inside h = h

RunEnds-map :
    (f : Floats) (g : IrFunction) (frame : SimFrame) (r : Run) (P Q : Signal → SimFrame → Type 0)
    → ((s : Signal) (frame' : SimFrame) → P s frame' → Q s frame')
    → RunEnds f g frame r P
    → RunEnds f g frame r Q
RunEnds-map f g frame none P Q k h = tt
RunEnds-map f g frame (some (ok s)) P Q k (n, frame', walked, p) = (n, frame', walked, k s frame' p)
RunEnds-map f g frame (some (err e)) P Q k h = h
RunEnds-map f g frame (some undefined) P Q k h = tt

first_block :
    (g : IrFunction)
    → ((n : ℕ) (b : IrBlock) → get_elem? g.blocks n ≡ some b → b.id ≡ n)
    → (initial_frame g).block ≡ 0
unfolding initial_frame entry_block
first_block g numbered = go (get_elem? g.blocks 0) refl
  where
    go : (b : Option IrBlock) → get_elem? g.blocks 0 ≡ b → entry_id b ≡ 0
    go none e = refl
    go (some b) e = numbered 0 b e

-- A function without calls that reads and assigns only its own variables is lowered, if none of the
-- assignments it begins with reads a variable that is assigned to by itself or a later one of them
-- and by none before it. In the first frame of the result the simulator's handlers walk from instruction to
-- instruction to what the function means, where its variables start with the values they are
-- declared with, whenever it has a meaning within some fuel: to the end of the last block, to a
-- return of the meant value, or to the meant simulator error. Where the meaning is undefined
-- behaviour nothing is claimed.
pub lower_function-RunEnds :
    (f : Floats) (label : String → ℕ → String) (function : Function)
    → stmts_slots (named_table function.vars) (statements function) ≡ true
    → reads_set [] (statements function) ≡ true
    → LowersTo
        (λ g.
          (n : ℕ)
          → RunEnds f g
              (initial_frame g)
              (exec_stmts f n (statements function) (first_env function))
              (Finishes g))
        (lower_function label function)
unfolding lower_function rebuild_block_index initial_frame
lower_function-RunEnds f label function h r =
    go (lower_body label function (initial_context function.name))
      (lower_body-Performs f label function h)
  where
    go :
        (r : Lowered (ℕ × LoweringContext))
        → Returns
            (initial_context function.name)
            (λ b d. BodyPerforms f function b d × HasBlock d b)
            r
        → LowersTo
            (λ g.
              (n : ℕ)
              → RunEnds f g
                  (initial_frame g)
                  (exec_stmts f n (statements function) (first_env function))
                  (Finishes g))
            (finish r)
    go (ok (b, d)) k =
        let g : IrFunction = rebuild_block_index d.function in
        λ n.
          RunEnds-map f g (initial_frame g) _ (SignalAt g d b) (Finishes g)
            (λ s frame'. SignalAt-Finishes g d b s frame' (λ m. refl) k.2.1)
            (subst (λ o. RunEnds f g (initial_frame g) o (SignalAt g d b))
              (declared_env-first_env f n function r)
              (k.2.0 g n (initial_frame g) (λ m. ([], sym (append-nil (instrs_at d m))))
                (first_block g k.0.numbered) refl))
    go logic_error k = k
    go undefined k = k

-- ===== src/Examples/Samples.antt =====
-- Sample programs.
use asm_studio.Prelude.{ℕ, true, false, none, some, [], ◌∷◌, String}
use asm_studio.Prelude.Int.{pos}
use asm_studio.Support.Types.{DataType, BinOp, CmpKind}
use asm_studio.Machine.Ub.{defined}
use asm_studio.Machine.Floats.{Floats}
use asm_studio.Ir.{RegValue, int64, IrOp, IrValue, IrInstr, IrFunction, IrModule, empty_instr}
use asm_studio.Dsl.Syntax.{
  Variable, variable, literal, const_expr, var_expr, bin_expr, nil, cons, assign_stmt, while_stmt,
  return_stmt,
}
use asm_studio.Dsl.Builder.{Function}

-- A stand-in for the parameter: every double is the pattern 0.
abbrev pub no_floats : Floats
no_floats = record {
  add = λ a b. 0;
  sub = λ a b. 0;
  mul = λ a b. 0;
  div = λ a b. 0;
  fmod = λ a b. 0;
  neg = λ a. 0;
  zero = 0;
  lt = λ a b. false;
  le = λ a b. true;
  eq = λ a b. true;
  of_int64 = λ z. 0;
  of_uint64 = λ n. 0;
  to_int64 = λ d. defined (pos 0);
  to_uint64 = λ d. defined 0;
}

abbrev pub plain_label : String → ℕ → String
plain_label s n = s

abbrev pub index : Variable
index = record { name = "i"; type = DataType.int32; init = int64 (pos 0) }

abbrev pub total : Variable
total = record { name = "total"; type = DataType.int32; init = int64 (pos 0) }

-- The function of the README.
abbrev pub sum_function : Function
sum_function = record {
  name = "sum";
  vars = index ∷ total ∷ [];
  current_body = cons (assign_stmt index (const_expr (int64 (pos 0)))) (
      cons (assign_stmt total (const_expr (int64 (pos 0)))) (
        cons
          (while_stmt
            (record {
              left_operand = variable index;
              comparison_kind = CmpKind.lt;
              right_operand = literal (int64 (pos 10));
            })
            (cons (assign_stmt total (bin_expr BinOp.add (var_expr total) (var_expr index))) (
              cons
                (assign_stmt index
                  (bin_expr BinOp.add (var_expr index) (const_expr (int64 (pos 1)))))
                nil)))
          (cons (return_stmt (some (var_expr total))) nil)));
  outer_bodies = [];
}

-- v0 = 2
abbrev pub load_constant : IrInstr
load_constant = record (empty_instr IrOp.const) {
  output = some 0;
  const_val = some (int64 (pos 2));
}

-- v2 = v0 + v1
abbrev pub add_constants : IrInstr
add_constants = record (empty_instr IrOp.add) { inputs = 0 ∷ 1 ∷ []; output = some 2 }

abbrev constant_value : RegValue → IrValue
constant_value c = record { type = DataType.int32; constant = some c }

-- A branch on a constant, a sum of constants, and a block that nothing reaches.
abbrev pub branching : IrFunction
branching = record {
  name = "branching";
  blocks =
      record {
        id = 0;
        name = "entry";
        instrs =
            load_constant
            ∷ add_constants
            ∷ record (empty_instr IrOp.br_true) {
              inputs = 0 ∷ [];
              true_target = some 1;
              false_target = some 2;
            }
            ∷ [];
      }
      ∷ record {
        id = 1;
        name = "then";
        instrs = record (empty_instr IrOp.ret) { inputs = 2 ∷ [] } ∷ [];
      }
      ∷ record {
        id = 2;
        name = "else";
        instrs = record (empty_instr IrOp.ret) { inputs = 0 ∷ [] } ∷ [];
      }
      ∷ [];
  values =
      constant_value (int64 (pos 2))
      ∷ constant_value (int64 (pos 3))
      ∷ record { type = DataType.int32; constant = none }
      ∷ [];
  block_index = (0, 0) ∷ (1, 1) ∷ (2, 2) ∷ [];
}

abbrev pub branching_module : IrModule
branching_module = record { name = "demo"; functions = branching ∷ [] }

-- ===== src/Analysis/Dot.antt =====
-- src/analysis/CfgDot.cpp. The stream is the text that is written to it.
use asm_studio.Prelude.{ℕ, [], ◌∷◌, ◌++◌, ◌==◌, if◌then◌else◌}
use asm_studio.Text.{Text, codes, newline, join, each}
use asm_studio.Text.Decimal.{format_nat}
use asm_studio.Ir.{IrInstr, IrBlock, IrFunction, IrModule, ir_op_name, is_br_true}
use asm_studio.Codegen.Pseudo.{where_some}

unfoldable pub block_node_id : Text → ℕ → Text
block_node_id function_name block_id = function_name ++ codes "_blk_" ++ format_nat block_id

abbrev pub escape_char : ℕ → Text
escape_char character = if character == b'"' then b'\\' ∷ b'"' ∷ [] else character ∷ []

unfoldable pub escape_dot_label : Text → Text
escape_dot_label text = each escape_char text

-- `\l`, which ends a line that is aligned to the left.
abbrev pub label_line_end : Text
label_line_end = b'\\' ∷ b'l' ∷ []

-- The line of an instruction, and the lines of a block, before they are escaped.
abbrev pub instr_label_line : IrInstr → Text
instr_label_line i =
    where_some i.output (λ id. codes "v" ++ (format_nat id ++ codes " = "))
    ++ (codes (ir_op_name i.op) ++ label_line_end)

abbrev pub block_label_lines : IrBlock → Text
block_label_lines block = codes block.name ++ (label_line_end ++ each instr_label_line block.instrs)

unfoldable pub build_block_label : IrBlock → Text
build_block_label block = escape_dot_label (block_label_lines block)

abbrev pub quote : Text → Text
quote text = b'"' ∷ text ++ b'"' ∷ []

-- The edges of an instruction.
unfoldable pub emit_edges : Text → Text → IrInstr → Text
emit_edges function_name source i =
    where_some i.true_target (λ target.
      codes "    "
      ++ quote source
      ++ codes " -> "
      ++ quote (block_node_id function_name target)
      ++ (if is_br_true i.op then codes " [label=" ++ quote (codes "T") ++ codes "]" else [])
      ++ codes ";"
      ++ newline)
    ++ where_some i.false_target (λ target.
      codes "    "
      ++ quote source
      ++ codes " -> "
      ++ quote (block_node_id function_name target)
      ++ codes " [label="
      ++ quote (codes "F")
      ++ codes "];"
      ++ newline)

unfoldable pub emit_function_subgraph : IrFunction → Text
emit_function_subgraph function =
    let name : Text = codes function.name in
    join (
      codes "  subgraph cluster_"
      ∷ name
      ∷ codes " {"
      ∷ newline
      ∷ codes "    label="
      ∷ quote name
      ∷ codes ";"
      ∷ newline
      ∷ codes "    style=filled; fillcolor=lightgrey;"
      ∷ newline
      ∷ newline
      ∷ each
          (λ (b : IrBlock).
            codes "    "
            ++ quote (block_node_id name b.id)
            ++ codes " [shape=box, style=filled, fillcolor=white, label="
            ++ quote (build_block_label b)
            ++ codes ", align=left];"
            ++ newline)
          function.blocks
      ∷ newline
      ∷ each (λ (b : IrBlock). each (λ i. emit_edges name (block_node_id name b.id) i) b.instrs)
          function.blocks
      ∷ codes "  }"
      ∷ newline
      ∷ [])

abbrev pub digraph : Text → Text → Text
digraph name body =
    codes "digraph "
    ++ name
    ++ codes " {"
    ++ newline
    ++ codes "  rankdir=TB;"
    ++ newline
    ++ body
    ++ codes "}"
    ++ newline

-- `toDot` of a function, and of a module.
unfoldable pub to_dot_function : IrFunction → Text
to_dot_function function = digraph (codes function.name) (emit_function_subgraph function)

unfoldable pub to_dot : IrModule → Text
to_dot m = digraph (codes m.name) (each emit_function_subgraph m.functions)

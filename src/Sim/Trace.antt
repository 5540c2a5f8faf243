-- ===== src/Sim/Trace.antt =====
-- `Simulator::printTrace` of src/sim/Simulator.cpp.
use asm_studio.Prelude.{
  ℕ, ◌-◌, true, false, Option, none, some, List, [], ◌∷◌, ◌++◌, length, replicate,
}
use asm_studio.Text.{Text, codes, newline, join}
use asm_studio.Text.Decimal.{FloatText, format_nat, format_int}
use asm_studio.Ir.{RegValue, int64, uint64, double, bool}
use asm_studio.Sim.State.{SimFrame, SimState, Simulator}
use asm_studio.Sim.Run.{last_result}

-- `std::setw(4)`: spaces on the left.
abbrev pub set_width : ℕ → Text → Text
set_width width text = replicate (width - length text) b' ' ++ text

-- A bool goes to a stream as a digit.
abbrev pub stream_value : FloatText → RegValue → Text
stream_value t (int64 value) = format_int value
stream_value t (uint64 value) = format_nat value
stream_value t (double value) = t.stream value
stream_value t (bool true) = codes "1"
stream_value t (bool false) = codes "0"

-- A snapshot without frames has no line, but its number is used up.
abbrev pub snapshot_line : ℕ → List SimFrame → Text
snapshot_line step_index [] = []
snapshot_line step_index (frame ∷ frames) = join (
    codes "  step "
    ∷ set_width 4 (format_nat step_index)
    ∷ codes "  fn="
    ∷ codes frame.function_name
    ∷ codes " block="
    ∷ format_nat frame.block
    ∷ codes " pc="
    ∷ format_nat frame.pc
    ∷ newline
    ∷ [])

-- The history has the last snapshot first: the lines of the ones before it come first.
abbrev pub history_lines : List SimState → Text
history_lines [] = []
history_lines (state ∷ history) =
    history_lines history ++ snapshot_line (length history) state.call_stack

abbrev pub return_line : FloatText → Option RegValue → Text
return_line t none = []
return_line t (some value) = codes "  return value: " ++ stream_value t value ++ newline

unfoldable pub print_trace : FloatText → Simulator → Text
print_trace t s = join (
    codes "=== Simulation Trace ==="
    ∷ newline
    ∷ history_lines s.history
    ∷ codes "  total steps: "
    ∷ format_nat s.step_count
    ∷ newline
    ∷ return_line t (last_result s.trace)
    ∷ [])

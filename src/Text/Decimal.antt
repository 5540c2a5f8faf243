-- ===== src/Text/Decimal.antt =====
-- Numbers as the standard library writes them: `std::to_string` and `operator<<`. What it does to
-- doubles is a parameter.
use asm_studio.Prelude.{ℕ, zero, suc, ◌+◌, ◌/◌, ◌%◌, List, [], ◌∷◌, ◌++◌, ltb, if◌then◌else◌}
use asm_studio.Prelude.Int.{ℤ, pos, negsuc}

-- `std::to_string` and `operator<<` of a double.
pub record FloatText : Type 0 where
  pub to_string : ℕ → List ℕ
  pub stream : ℕ → List ℕ

-- The decimal digits, with fuel for one division in each round; n rounds are enough for n.
unfoldable pub digits : ℕ → ℕ → List ℕ
digits zero n = (b'0' + n % 10) ∷ []
digits (suc fuel) n =
    let rest : List ℕ = digits fuel (n / 10) ++ (b'0' + n % 10) ∷ [] in
    if ltb n 10 then (b'0' + n) ∷ [] else rest

unfoldable pub format_nat : ℕ → List ℕ
format_nat n = digits n n

unfoldable pub format_int : ℤ → List ℕ
format_int (pos n) = format_nat n
format_int (negsuc n) = b'-' ∷ format_nat (n + 1)

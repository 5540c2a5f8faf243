-- ===== src/Text/ReadBack.antt =====
-- Decimal text read back.
use asm_studio.Prelude.{
  ℕ, zero, suc, ◌+◌, ◌-◌, ◌*◌, ◌/◌, ◌%◌, ◌≤◌, ◌≡◌, refl, sym, ap, ◌∙◌, true, List, [], ◌∷◌, ◌++◌,
  arith, ltb, Bool-cases, inl, inr,
}
use asm_studio.Text.Decimal.{digits, format_nat}
use asm_studio.Parse.Lexer.{all_digits}

-- The number that a list of digits stands for.
abbrev pub read_digits : ℕ → List ℕ → ℕ
read_digits n [] = n
read_digits n (c ∷ cs) = read_digits (n * 10 + (c - b'0')) cs

read_digits-append :
    (n : ℕ) (cs ds : List ℕ) → read_digits n (cs ++ ds) ≡ read_digits (read_digits n cs) ds
read_digits-append n [] ds = refl
read_digits-append n (c ∷ cs) ds = read_digits-append (n * 10 + (c - b'0')) cs ds

read_digits-digits : (fuel n : ℕ) → n ≤ fuel → read_digits 0 (digits fuel n) ≡ n
unfolding digits
read_digits-digits zero n h = omega (arith, h)
read_digits-digits (suc fuel) n h = elim (Bool-cases (ltb n 10)) [
  | inl e ↦ rw e (omega arith)
  | inr e ↦
      let ih : read_digits 0 (digits fuel (n / 10)) ≡ n / 10 =
        read_digits-digits fuel (n / 10) (ground (arith, e, h)) in
      rw e (read_digits-append 0 (digits fuel (n / 10)) ((b'0' + n % 10) ∷ []) ∙ omega (arith, ih))
]

-- What is written in decimal is read back.
pub read_digits-format_nat : (n : ℕ) → read_digits 0 (format_nat n) ≡ n
unfolding format_nat
read_digits-format_nat n = read_digits-digits n n (omega arith)

-- Two numbers are never written alike.
pub format_nat-inj : (n m : ℕ) → format_nat n ≡ format_nat m → n ≡ m
format_nat-inj n m e =
    sym (read_digits-format_nat n) ∙ ap (read_digits 0) e ∙ read_digits-format_nat m

all_digits-append :
    (cs ds : List ℕ) → all_digits cs ≡ true → all_digits ds ≡ true → all_digits (cs ++ ds) ≡ true
all_digits-append [] ds h k = k
all_digits-append (c ∷ cs) ds h k = ground (arith, h, all_digits-append cs ds, k)

all_digits-digits : (fuel n : ℕ) → n ≤ fuel → all_digits (digits fuel n) ≡ true
unfolding digits
all_digits-digits zero n h = ground (arith, h)
all_digits-digits (suc fuel) n h = elim (Bool-cases (ltb n 10)) [
  | inl e ↦ rw e (ground (arith, e))
  | inr e ↦ rw e (
      all_digits-append (digits fuel (n / 10)) ((b'0' + n % 10) ∷ [])
        (all_digits-digits fuel (n / 10) (ground (arith, e, h))) (ground arith))
]

pub all_digits-format_nat : (n : ℕ) → all_digits (format_nat n) ≡ true
unfolding format_nat
all_digits-format_nat n = all_digits-digits n n (omega arith)

snoc-cons : (cs : List ℕ) (d : ℕ) → (c : ℕ) × (ds : List ℕ) × (cs ++ d ∷ [] ≡ c ∷ ds)
snoc-cons [] d = (d, [], refl)
snoc-cons (c ∷ cs) d = (c, cs ++ d ∷ [], refl)

digits-cons : (fuel n : ℕ) → (c : ℕ) × (ds : List ℕ) × (digits fuel n ≡ c ∷ ds)
unfolding digits
digits-cons zero n = (b'0' + n % 10, [], refl)
digits-cons (suc fuel) n = elim (Bool-cases (ltb n 10)) [
  | inl e ↦ rw e (b'0' + n, [], refl)
  | inr e ↦ rw e (snoc-cons (digits fuel (n / 10)) (b'0' + n % 10))
]

-- There is at least one digit.
pub format_nat-cons : (n : ℕ) → (c : ℕ) × (ds : List ℕ) × (format_nat n ≡ c ∷ ds)
unfolding format_nat
format_nat-cons n = digits-cons n n

-- ===== src/Codegen/RegisterLaws.antt =====
-- src/codegen/Arm64Emitter.cpp: the names that `RegAlloc` gives out.
use mathlib.Core.Option.{some-injective}
use asm_studio.Prelude.{
  ℕ, zero, suc, ◌+◌, ◌<◌, ◌≡◌, ◌≢◌, refl, sym, ap, ◌∙◌, Option, none, some, List, [], ◌∷◌, arith,
  ltb, ◌==◌, if◌then◌else◌, length, lookup_id, is_some, true, is_some, All, All-map, Bool-cases,
  inl, inr, ==_iff, ==_refl,
}
use asm_studio.Text.{Text}
use asm_studio.Text.Decimal.{format_nat, digits}
use asm_studio.Text.ReadBack.{format_nat-inj}
use asm_studio.Codegen.NameSets.{HasName, insert_name-HasName, insert_name-HasName_kept}
use asm_studio.Codegen.Registers.{
  RegAlloc, no_registers, alloc, alloc_found, get, name_or_x9, register_name,
}

-- The number in the name of a register.
abbrev pub name_number : ℕ → ℕ
name_number n = if ltb n 7 then 9 + n else 16 + n

register_name_lem : (n : ℕ) → register_name n ≡ b'x' ∷ format_nat (name_number n)
unfolding register_name format_nat digits
register_name_lem zero = refl
register_name_lem (suc zero) = refl
register_name_lem (suc (suc zero)) = refl
register_name_lem (suc (suc (suc zero))) = refl
register_name_lem (suc (suc (suc (suc zero)))) = refl
register_name_lem (suc (suc (suc (suc (suc zero))))) = refl
register_name_lem (suc (suc (suc (suc (suc (suc zero)))))) = refl
register_name_lem (suc (suc (suc (suc (suc (suc (suc n))))))) =
    let same : 16 + suc (suc (suc (suc (suc (suc (suc n))))))
        ≡ name_number (suc (suc (suc (suc (suc (suc (suc n))))))) =
      ground arith in
    ap (λ k. b'x' ∷ format_nat k) same

register_name-inj : (n m : ℕ) → register_name n ≡ register_name m → n ≡ m
register_name-inj n m e =
    let same : format_nat (name_number n) ≡ format_nat (name_number m) =
      cc (register_name_lem n, register_name_lem m, e) in
    let number : name_number n ≡ name_number m = format_nat-inj _ _ same in ground (arith, number)

-- Each entry has the name of its turn.
abbrev pub Named : List (ℕ × Text) → Type 0
Named [] = Unit
Named ((id, name) ∷ m) = (name ≡ register_name (length m)) × Named m

-- The invariant of the allocator: names go by turns, the index is that of the next turn, and every
-- name given out is in the set of used registers.
pub record IsWellFormedAlloc (r : RegAlloc) : Type 0 where
  pub named : Named r.register_map
  pub next : r.next_register_index ≡ length r.register_map
  pub used : All (λ (entry : ℕ × Text). HasName r.used_registers entry.1) r.register_map

pub no_registers-IsWellFormedAlloc : IsWellFormedAlloc no_registers
no_registers-IsWellFormedAlloc = record { named = tt; next = refl; used = tt }

-- What was allocated keeps its register.
abbrev pub KeepsRegisters : RegAlloc → RegAlloc → Type 0
KeepsRegisters r r' =
    (id : ℕ) (name : Text)
    → lookup_id id r.register_map ≡ some name
    → lookup_id id r'.register_map ≡ some name

-- Allocating a register keeps the invariant and what was allocated; the register is the one that
-- `get` then gives for the value.
pub alloc-IsWellFormedAlloc :
    (r : RegAlloc) (id : ℕ)
    → IsWellFormedAlloc r
    → IsWellFormedAlloc (alloc r id).1
      × KeepsRegisters r (alloc r id).1
      × (get (alloc r id).1 id ≡ (alloc r id).0)
unfolding alloc get
alloc-IsWellFormedAlloc r id h = go (lookup_id id r.register_map) refl
  where
    go :
        (found : Option Text)
        → lookup_id id r.register_map ≡ found
        → IsWellFormedAlloc (alloc_found r id found).1
          × KeepsRegisters r (alloc_found r id found).1
          × (name_or_x9 (lookup_id id (alloc_found r id found).1.register_map)
              ≡ (alloc_found r id found).0)
    go (some name) e = (
      record {
        named = h.named;
        next = h.next;
        used =
            All-map _ _ (λ entry k. insert_name-HasName_kept name entry.1 _ k) r.register_map
              h.used;
      },
      (λ j old k. k),
      ap name_or_x9 e,
    )
    go none e =
        let name : Text = register_name r.next_register_index in
        (
          record {
            named = (ap register_name h.next, h.named);
            next = omega (arith, h.next);
            used = (
              insert_name-HasName name r.used_registers,
              All-map _ _ (λ entry k. insert_name-HasName_kept name entry.1 _ k) r.register_map
                  h.used,
            );
          },
          (λ j old k. other j old k),
          rw (==_refl id) refl,
        )
      where
        other :
            (j : ℕ) (old : Text)
            → lookup_id j r.register_map ≡ some old
            → lookup_id j ((id, register_name r.next_register_index) ∷ r.register_map) ≡ some old
        other j old k = elim (Bool-cases (id == j)) [
          | inl q ↦
              absurd (clash (sym e ∙ ap (λ x. lookup_id x r.register_map) ((==_iff id j).0 q) ∙ k))
          | inr q ↦ rw q k
        ]
          where
            clash : none ≡ some old → ⊥
            clash p = cc

-- The name that is found is that of a turn.
lookup_id-Named :
    (id : ℕ) (m : List (ℕ × Text)) (name : Text)
    → Named m
    → lookup_id id m ≡ some name
    → (k : ℕ) × (k < length m) × (name ≡ register_name k)
lookup_id-Named id [] name h e = cc
lookup_id-Named id ((j, n) ∷ m) name h e = elim (Bool-cases (j == id)) [
  | inl q ↦ (length m, omega arith, sym (some-injective n name (rw q at e)) ∙ h.0)
  | inr q ↦ let (k, l, p) = lookup_id-Named id m name h.1 (rw q at e) in (k, omega (arith, l), p)
]

lookup_id-inj :
    (r : RegAlloc) (id id' : ℕ) (name name' : Text)
    → IsWellFormedAlloc r
    → lookup_id id r.register_map ≡ some name
    → lookup_id id' r.register_map ≡ some name'
    → name ≡ name'
    → id ≡ id'
lookup_id-inj r id id' name name' h = go r.register_map h.named
  where
    go :
        (m : List (ℕ × Text))
        → Named m
        → lookup_id id m ≡ some name
        → lookup_id id' m ≡ some name'
        → name ≡ name'
        → id ≡ id'
    go [] k e e' p = cc
    go ((j, n) ∷ m) k e e' p = elim (Bool-cases (j == id)) [
      | inl q ↦ elim (Bool-cases (j == id')) [
        | inl q' ↦ ground (arith, q, q')
        | inr q' ↦
            let (i, l, w) = lookup_id-Named id' m name' k.1 (rw q' at e') in
            let same : length m ≡ i =
              register_name-inj (length m) i
                (sym k.0 ∙ some-injective n name (rw q at e) ∙ p ∙ w) in
            absurd (omega (arith, l, same))
      ]
      | inr q ↦ elim (Bool-cases (j == id')) [
        | inl q' ↦
            let (i, l, w) = lookup_id-Named id m name k.1 (rw q at e) in
            let same : length m ≡ i =
              register_name-inj (length m) i
                (sym k.0 ∙ some-injective n name' (rw q' at e') ∙ sym p ∙ w) in
            absurd (omega (arith, l, same))
        | inr q' ↦ go m k.1 (rw q at e) (rw q' at e') p
      ]
    ]

-- Two different values that were allocated have different registers.
pub get-ne :
    (r : RegAlloc) (id id' : ℕ)
    → IsWellFormedAlloc r
    → is_some (lookup_id id r.register_map) ≡ true
    → is_some (lookup_id id' r.register_map) ≡ true
    → id ≢ id'
    → get r id ≢ get r id'
unfolding get
get-ne r id id' h = go (lookup_id id r.register_map) (lookup_id id' r.register_map) refl refl
  where
    go :
        (o o' : Option Text)
        → lookup_id id r.register_map ≡ o
        → lookup_id id' r.register_map ≡ o'
        → is_some o ≡ true
        → is_some o' ≡ true
        → id ≢ id'
        → name_or_x9 (lookup_id id r.register_map) ≢ name_or_x9 (lookup_id id' r.register_map)
    go none o' e e' k k' d = cc
    go (some name) none e e' k k' d = cc
    go (some name) (some name') e e' k k' d = λ q.
        d (lookup_id-inj r id id' name name' h e e' (sym (ap name_or_x9 e) ∙ q ∙ ap name_or_x9 e'))

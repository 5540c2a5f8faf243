-- ===== src/Optimizer/Identifiers.antt =====
-- The lists of identifiers that stand for the sets of src/transforms/passes.
use mathlib.Core.Option.{some-injective}
use asm_studio.Prelude.{
  ℕ, zero, suc, ◌≡◌, ◌⊎◌, inl, inr, ap, true, some, List, [], ◌∷◌, ◌++◌, arith, get_elem?,
  contains_id, ◌==◌, ==_iff, ==_refl, Bool-cases,
}

-- Membership in a list of identifiers.
abbrev pub Has : List ℕ → ℕ → Type 0
Has ids id = contains_id id ids ≡ true

pub Has-head : (x : ℕ) (ids : List ℕ) → Has (x ∷ ids) x
Has-head x ids = ground (arith, ==_refl x)

pub Has-uncons : (id x : ℕ) (ids : List ℕ) → Has (x ∷ ids) id → (x ≡ id) ⊎ Has ids id
Has-uncons id x ids h = elim (Bool-cases (x == id)) [
  | inl e ↦ inl ((==_iff x id).0 e)
  | inr e ↦ inr (ground (arith, e, h))
]

pub Has-left : (target : ℕ) (xs ys : List ℕ) → Has xs target → Has (xs ++ ys) target
Has-left target [] ys h = cc
Has-left target (x ∷ xs) ys h = ground (arith, h, Has-left target xs ys)

pub Has-right : (target : ℕ) (xs ys : List ℕ) → Has ys target → Has (xs ++ ys) target
Has-right target [] ys h = h
Has-right target (x ∷ xs) ys h = ground (arith, Has-right target xs ys h)

pub Has-append : (id : ℕ) (xs ys : List ℕ) → Has (xs ++ ys) id → Has xs id ⊎ Has ys id
Has-append id [] ys h = inr h
Has-append id (x ∷ xs) ys h = elim (Has-uncons id x (xs ++ ys) h) [
  | inl e ↦ inl (ground (arith, e, ==_refl x))
  | inr k ↦ elim (Has-append id xs ys k) [ inl l ↦ inl (ground (arith, l)) | inr r ↦ inr r ]
]

-- The identifier stands at a position of the list.
abbrev pub IsEntry : List ℕ → ℕ → Type 0
IsEntry ids id = (k : ℕ) × (get_elem? ids k ≡ some id)

pub Has-IsEntry : (id : ℕ) (ids : List ℕ) → Has ids id → IsEntry ids id
Has-IsEntry id [] h = cc
Has-IsEntry id (x ∷ ids) h = elim (Has-uncons id x ids h) [
  | inl e ↦ (0, ap some e)
  | inr m ↦ let (k, e) = Has-IsEntry id ids m in (suc k, e)
]

pub IsEntry-Has : (id : ℕ) (ids : List ℕ) → IsEntry ids id → Has ids id
IsEntry-Has id [] (k, e) = cc
IsEntry-Has id (x ∷ ids) (zero, e) =
    let q : x ≡ id = some-injective x id e in ground (arith, q, ==_refl x)
IsEntry-Has id (x ∷ ids) (suc k, e) = ground (arith, IsEntry-Has id ids (k, e))

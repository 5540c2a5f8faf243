-- ===== src/Codegen/NameSets.antt =====
-- src/codegen/Arm64Emitter.cpp: equality of names, and insertion into a set of names.
use asm_studio.Prelude.{
  ◌≡◌, refl, sym, ap, ◌∙◌, true, false, List, [], ◌∷◌, arith, ◌==◌, any, Bool-cases, inl, inr,
  ==_iff,
}
use asm_studio.Text.{Text}
use asm_studio.Codegen.Registers.{insert_name, text_eq, text_ltb}

pub text_eq_refl : (t : Text) → text_eq t t ≡ true
text_eq_refl [] = refl
text_eq_refl (c ∷ t) = ground (arith, text_eq_refl t)

-- A name is in a set of names.
abbrev pub HasName : List Text → Text → Type 0
HasName names name = any (λ n. text_eq n name) names ≡ true

pub text_eq_sound : (t u : Text) → text_eq t u ≡ true → t ≡ u
text_eq_sound [] [] h = refl
text_eq_sound [] (d ∷ u) h = cc
text_eq_sound (c ∷ t) [] h = cc
text_eq_sound (c ∷ t) (d ∷ u) h = elim (Bool-cases (c == d)) [
  | inl e ↦
      let tail : t ≡ u = text_eq_sound t u (rw e at h) in
      ap (λ x. x ∷ t) ((==_iff c d).0 e) ∙ ap (◌∷◌ d) tail
  | inr e ↦ absurd (clash (rw e at h))
]
  where
    clash : false ≡ true → ⊥
    clash q = cc

-- The set after an insertion has the name, and the names that it had.
pub insert_name-HasName : (name : Text) (names : List Text) → HasName (insert_name name names) name
unfolding insert_name
insert_name-HasName name [] = rw (text_eq_refl name) refl
insert_name-HasName name (other ∷ names) = elim (Bool-cases (text_ltb name other)) [
  | inl e ↦ rw e (rw (text_eq_refl name) refl)
  | inr e ↦ rw e (elim (Bool-cases (text_eq name other)) [
    | inl q ↦
        rw q (
          rw (ap (λ x. text_eq x name) (sym (text_eq_sound name other q)) ∙ text_eq_refl name) refl)
    | inr q ↦ rw q (ground (arith, insert_name-HasName name names))
  ])
]

pub insert_name-HasName_kept :
    (name old : Text) (names : List Text) → HasName names old → HasName (insert_name name names) old
unfolding insert_name
insert_name-HasName_kept name old [] h = cc
insert_name-HasName_kept name old (other ∷ names) h = elim (Bool-cases (text_ltb name other)) [
  | inl e ↦ rw e (ground (arith, h))
  | inr e ↦ rw e (elim (Bool-cases (text_eq name other)) [
    | inl q ↦ rw q h
    | inr q ↦ rw q (ground (arith, h, insert_name-HasName_kept name old names))
  ])
]

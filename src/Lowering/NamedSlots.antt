-- ===== src/Lowering/NamedSlots.antt =====
-- Slots of the variables that src/ir/Lowering.cpp declares, named after their code.
use mathlib.Core.Path.{subst}
use mathlib.Core.Option.{some-injective}
use text.Mathlib.TextEquality.{eq_iff}
use asm_studio.Prelude.{
  get_elem?, ℕ, ◌≤◌, ◌≡◌, ◌⊎◌, inl, inr, refl, sym, ap, ◌∙◌, true, false, Option, some, List, ◌++◌,
  String, str_eq, arith, length, if◌then◌else◌, Bool-cases,
}
use asm_studio.Machine.Floats.{Floats}
use asm_studio.Ir.{IrFunction, RegValue}
use asm_studio.Dsl.Meaning.{Env}
use asm_studio.Sim.State.{ok, SimFrame, read_value}
use asm_studio.Lowering.Context.{LoweringContext, lookup_name, insert_or_assign, set_variable}
use asm_studio.Lowering.Invariant.{IsWellFormed}
use asm_studio.Lowering.Operations.{lookup_name-insert_or_assign}
use asm_studio.Lowering.Emitted.{instrs_of, Yields}
use asm_studio.Lowering.ExprMeaning.{Agrees}
use asm_studio.Lowering.Endings.{Leads, Contains, At}
use asm_studio.Lowering.Performs.{Distinct}

-- Where a slot is not in the table, another name may have it.
Distinct-insert_or_assign :
    (table : List (String × ℕ)) (name : String) (id : ℕ)
    → ((n : String) → lookup_name n table ≡ some id → ⊥)
    → Distinct table
    → Distinct (insert_or_assign name id table)
Distinct-insert_or_assign table name id fresh h n n' j p q =
    go (Bool-cases (str_eq name n)) (Bool-cases (str_eq name n'))
      (sym (lookup_name-insert_or_assign name n id table) ∙ p)
      (sym (lookup_name-insert_or_assign name n' id table) ∙ q)
  where
    go :
        (str_eq name n ≡ true) ⊎ (str_eq name n ≡ false)
        → (str_eq name n' ≡ true) ⊎ (str_eq name n' ≡ false)
        → (if str_eq name n then some id else lookup_name n table) ≡ some j
        → (if str_eq name n' then some id else lookup_name n' table) ≡ some j
        → n ≡ n'
    go (inl a) (inl b) p q = sym ((eq_iff name n).0 a) ∙ (eq_iff name n').0 b
    go (inl a) (inr b) p q = absurd (fresh n' ((rw b at q) ∙ sym (rw a at p)))
    go (inr a) (inl b) p q = absurd (fresh n ((rw a at p) ∙ sym (rw b at q)))
    go (inr a) (inr b) p q = h n n' j (rw a at p) (rw b at q)

pub set_variable-Yields :
    (c : LoweringContext) (name : String) (id : ℕ)
    → Yields
        (λ u d.
          (d.function ≡ c.function)
          × (d.variable_table ≡ insert_or_assign name id c.variable_table))
        (set_variable name id c)
unfolding set_variable
set_variable-Yields c name id = (refl, refl)

-- The values of the variables, where one has a new one or none.
abbrev pub with_variable : Env → String → Option RegValue → Env
with_variable env name o j = if str_eq name j then o else env j

named-Agrees :
    (env : Env) (d e : LoweringContext) (g : IrFunction) (frame : SimFrame) (name : String) (id : ℕ)
    (o : Option RegValue)
    → e.variable_table ≡ insert_or_assign name id d.variable_table
    → ((value : RegValue) → o ≡ some value → read_value frame g id ≡ ok value)
    → Agrees env d g frame
    → Agrees (with_variable env name o) e g frame
named-Agrees env d e g frame name id o t r ag n j value p s =
    go (Bool-cases (str_eq name n))
      (sym (lookup_name-insert_or_assign name n id d.variable_table)
        ∙ sym (ap (lookup_name n) t)
        ∙ p)
      s
  where
    go :
        (str_eq name n ≡ true) ⊎ (str_eq name n ≡ false)
        → (if str_eq name n then some id else lookup_name n d.variable_table) ≡ some j
        → with_variable env name o n ≡ some value
        → read_value frame g j ≡ ok value
    go (inl a) p s =
        subst (λ k. read_value frame g k ≡ ok value) (some-injective id j (rw a at p))
          (r value (rw a at s))
    go (inr a) p s = ag n j value (rw a at p) (rw a at s)

-- Code that gives variables their values.
pub record SetsUp (f : Floats) (m : Env → Env) (block : ℕ) (c d : LoweringContext) : Type 0 where
  pub contains : (g : IrFunction) → Contains g d → Contains g c
  pub distinct : Distinct c.variable_table → Distinct d.variable_table
  pub leads :
      (g : IrFunction) (env : Env) (frame : SimFrame)
      → Contains g d
      → At c block frame
      → Agrees env c g frame
      → Leads f g frame (λ frame'. At d block frame' × Agrees (m env) d g frame')

-- The variable gets its slot in the table after its code.
pub named-SetsUp :
    (f : Floats) (block slot : ℕ) (name : String) (o : Option RegValue) (c d e : LoweringContext)
    → IsWellFormed c
    → length c.function.values ≤ slot
    → ((g : IrFunction) → Contains g d → Contains g c)
    → d.variable_table ≡ c.variable_table
    → e.function ≡ d.function
    → e.variable_table ≡ insert_or_assign name slot d.variable_table
    → ((g : IrFunction) (env : Env) (frame : SimFrame)
        → Contains g d
        → At c block frame
        → Agrees env c g frame
        → Leads f g frame (λ frame'.
          At d block frame'
          × Agrees env d g frame'
          × ((value : RegValue) → o ≡ some value → read_value frame' g slot ≡ ok value)))
    → SetsUp f (λ env. with_variable env name o) block c e
named-SetsUp f block slot name o c d e w new back names same table leads = record {
  contains = λ g h. back g (earlier g h);
  distinct = λ h.
      let placed : insert_or_assign name slot c.variable_table ≡ e.variable_table =
        sym (table ∙ ap (insert_or_assign name slot) names) in
      subst Distinct placed (
        Distinct-insert_or_assign c.variable_table name slot
          (λ n p. omega (arith, (w.slots n slot p).0, new)) h);
  leads = λ g env frame h a ag.
      let (n, frame', walked, (at, agreed, reads)) = leads g env frame (earlier g h) a ag in
      (
        n,
        frame',
        walked,
        (
          (
            at.0,
            at.1
                ∙ sym (ap (λ (x : IrFunction). length (instrs_of (get_elem? x.blocks block))) same),
          ),
          named-Agrees env d e g frame' name slot o table reads agreed,
        ),
      );
}
  where
    earlier : (g : IrFunction) → Contains g e → Contains g d
    earlier g h n =
        let (rest, p) = h n in
        (rest, p ∙ ap (λ (x : IrFunction). instrs_of (get_elem? x.blocks n) ++ rest) same)

-- ===== src/Optimizer/Fixpoint.antt =====
-- `Optimizer::runFixpoint` of src/transforms/Optimizer.cpp: the termination of the loop.
use mathlib.Core.Path.{subst}
use asm_studio.Prelude.{
  ℕ, zero, suc, ◌+◌, ◌≤◌, ◌<◌, ◌≡◌, refl, sym, ap, ◌∙◌, ◌⊎◌, inl, inr, Bool, true, false, none,
  some, List, [], ◌∷◌, arith, if◌then◌else◌, length, keep_if, contains_id, ◌==◌, ==_iff, Bool-cases,
  length-keep_if-le, keep_if-eq, All,
}
use asm_studio.Support.Types.{OptimizationLevel}
use asm_studio.Machine.Ub.{defined, undefined}
use asm_studio.Machine.Floats.{Floats}
use asm_studio.Ir.{IrBlock, IrFunction, rebuild_block_index}
use asm_studio.Optimizer.Unreachable.{unreachable_block_elim, eliminate, remove_others}
use asm_studio.Optimizer.Passes.{
  PassEntry, PassResult, Progress, Round, noted, then_round, run_passes, run_fixpoint, run_function,
  make_optimizer, ended, with_any,
}
use asm_studio.Optimizer.Measure.{weight_blocks, measure, LowersUb}
use asm_studio.Optimizer.FoldProgress.{constant_folding-Lowers}
use asm_studio.Optimizer.DeadCodeProgress.{dead_code_elim-Lowers}
use asm_studio.Optimizer.JumpProgress.{jump_simplification-Lowers}
use asm_studio.Optimizer.SearchFuel.{find_reachable_block_ids-ends}

weight_blocks-keep_if :
    (p : IrBlock → Bool) (blocks : List IrBlock)
    → weight_blocks (keep_if p blocks) + length blocks
      ≤ weight_blocks blocks + length (keep_if p blocks)
unfolding weight_blocks
weight_blocks-keep_if p [] = omega arith
weight_blocks-keep_if p (b ∷ blocks) = ground (arith, weight_blocks-keep_if p blocks)

-- A pass ends, and lowers the measure or changes nothing.
abbrev pub PassLowers : IrFunction → PassResult → Type 0
PassLowers function none = ⊥
PassLowers function (some r) = LowersUb measure function r

remove_others-Lowers :
    (function : IrFunction) (reachable : List ℕ)
    → PassLowers function (ended (remove_others function (some reachable)))
unfolding measure rebuild_block_index
remove_others-Lowers function reachable =
    elim (Bool-cases (length (keep_if kept function.blocks) == length function.blocks)) [
      | inl e ↦ rw e (
          ap (λ (blocks : List IrBlock). record function { blocks = blocks })
            (keep_if-eq kept function.blocks (sym ((==_iff _ _).0 e))))
      | inr e ↦ rw e (
          ground (
            arith,
            e,
            weight_blocks-keep_if kept function.blocks,
            length-keep_if-le kept function.blocks,
          ))
    ]
  where
    kept : IrBlock → Bool
    kept b = contains_id b.id reachable

unreachable_block_elim-Lowers :
    (function : IrFunction) → PassLowers function (ended (unreachable_block_elim function))
unfolding unreachable_block_elim
unreachable_block_elim-Lowers function = go function.blocks
  where
    go : (blocks : List IrBlock) → PassLowers function (ended (eliminate function blocks))
    go [] = refl
    go (entry ∷ blocks) =
        let (reachable, e) = find_reachable_block_ids-ends function entry.id in
        rw e (remove_others-Lowers function reachable)

abbrev pub IsPass : PassEntry → Type 0
IsPass pass = (function : IrFunction) → PassLowers function (pass.run function)

-- The pass finds nothing to do.
abbrev pub IsQuiet : IrFunction → PassEntry → Type 0
IsQuiet function pass = pass.run function ≡ some (defined (function, false))

-- One round: nothing changed and every pass is quiet, or the measure fell.
abbrev RoundLowers : List PassEntry → Progress → Round → Type 0
RoundLowers passes p none = ⊥
RoundLowers passes p (some undefined) = Unit
RoundLowers passes p (some (defined q)) =
    ((q.changed ≡ p.changed) × (q.function ≡ p.function) × All (IsQuiet p.function) passes)
    ⊎ ((q.changed ≡ true) × (measure q.function < measure p.function))

run_passes-Lowers :
    (passes : List PassEntry) (p : Progress)
    → All IsPass passes
    → RoundLowers passes p (run_passes passes p)
unfolding run_passes
run_passes-Lowers [] p h = inl (refl, refl, tt)
run_passes-Lowers (pass ∷ passes) p h =
    go (pass.run p.function) refl (h.0 p.function) (λ q. run_passes-Lowers passes q h.1)
  where
    changed :
        (after : IrFunction) (r : Round)
        → measure after < measure p.function
        → RoundLowers passes (noted p pass.name (after, true)) r
        → RoundLowers (pass ∷ passes) p r
    changed after none l k = k
    changed after (some undefined) l k = tt
    changed after (some (defined q)) l (inl k) = inr (k.0, omega (arith, ap measure k.1))
    changed after (some (defined q)) l (inr k) = inr (k.0, omega arith)

    unchanged :
        (after : IrFunction) (r : Round)
        → after ≡ p.function
        → pass.run p.function ≡ some (defined (after, false))
        → RoundLowers passes (noted p pass.name (after, false)) r
        → RoundLowers (pass ∷ passes) p r
    unchanged after none e run k = k
    unchanged after (some undefined) e run k = tt
    unchanged after (some (defined q)) e run (inl k) = inl (
      k.0,
      k.1 ∙ e,
      (
        run ∙ ap (λ (g : IrFunction). some (defined (g, false))) e,
        subst (λ g. All (IsQuiet g) passes) e k.2,
      ),
    )
    unchanged after (some (defined q)) e run (inr k) = inr (k.0, omega (arith, ap measure e))

    go :
        (r : PassResult)
        → pass.run p.function ≡ r
        → PassLowers p.function r
        → ((q : Progress) → RoundLowers passes q (run_passes passes q))
        → RoundLowers
            (pass ∷ passes)
            p
            (then_round r (λ s. run_passes passes (noted p pass.name s)))
    go none e l k = l
    go (some undefined) e l k = tt
    go (some (defined (after, true))) e l k = changed after _ l (k _)
    go (some (defined (after, false))) e l k = unchanged after _ l e (k _)

-- The loop ends, at a function on which every pass is quiet and whose measure is no larger.
abbrev pub Settles : List PassEntry → IrFunction → Round → Type 0
Settles passes function none = ⊥
Settles passes function (some undefined) = Unit
Settles passes function (some (defined q)) =
    All (IsQuiet q.function) passes × (measure q.function ≤ measure function)

Settles-mono :
    (passes : List PassEntry) (function after : IrFunction) (r : Round)
    → measure after ≤ measure function
    → Settles passes after r
    → Settles passes function r
Settles-mono passes function after none h k = k
Settles-mono passes function after (some undefined) h k = tt
Settles-mono passes function after (some (defined q)) h k = (k.0, omega (arith, k.1))

pub run_fixpoint-Settles :
    (passes : List PassEntry) (fuel : ℕ) (p : Progress)
    → All IsPass passes
    → measure p.function < fuel
    → Settles passes p.function (run_fixpoint passes fuel p)
unfolding run_fixpoint
run_fixpoint-Settles passes zero p h l = absurd (omega arith)
run_fixpoint-Settles passes (suc fuel) p h l =
    go (run_passes passes (record p { changed = false }))
      (run_passes-Lowers passes (record p { changed = false }) h)
      (λ q. run_fixpoint-Settles passes fuel q h)
  where
    go :
        (r : Round)
        → RoundLowers passes (record p { changed = false }) r
        → ((q : Progress)
            → measure q.function < fuel
            → Settles passes q.function (run_fixpoint passes fuel q))
        → Settles passes p.function (
            then_round r (λ q.
              if q.changed
              then run_fixpoint passes fuel (with_any true q)
              else some (defined (with_any p.changed q))))
    go none k again = k
    go (some undefined) k again = tt
    go (some (defined q)) (inl k) again = rw k.0 (
      subst (λ (g : IrFunction). All (IsQuiet g) passes) (sym k.1) k.2,
      omega (arith, ap measure k.1),
    )
    go (some (defined q)) (inr k) again = rw k.0 (
        Settles-mono passes p.function q.function _ (omega (arith, k.1))
          (again (with_any true q) (omega (arith, k.1))))

-- The passes of every level.
pub make_optimizer-IsPass :
    (f : Floats) (level : OptimizationLevel) → All IsPass (make_optimizer f level).passes
unfolding make_optimizer
make_optimizer-IsPass f OptimizationLevel.none = tt
make_optimizer-IsPass f OptimizationLevel.basic =
    (constant_folding-Lowers f, (dead_code_elim-Lowers, tt))
make_optimizer-IsPass f _ = (
  constant_folding-Lowers f,
  (dead_code_elim-Lowers, (unreachable_block_elim-Lowers, (jump_simplification-Lowers f, tt))),
)

-- At every optimisation level the loop ends when its fuel exceeds the measure of the function: it
-- meets undefined arithmetic, or stops at a function that every pass of the level reports unchanged
-- and leaves as it is, and whose measure is at most the one at the start.
pub run_function-Settles :
    (f : Floats) (level : OptimizationLevel) (fuel : ℕ) (function : IrFunction)
    → measure function < fuel
    → Settles
        (make_optimizer f level).passes
        function
        (run_function (make_optimizer f level) fuel function)
unfolding run_function
run_function-Settles f level fuel function h =
    run_fixpoint-Settles (make_optimizer f level).passes fuel _ (make_optimizer-IsPass f level) h

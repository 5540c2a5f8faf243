-- ===== src/Optimizer/Eliminated.antt =====
-- The function that src/transforms/passes/UnreachableBlockEliminationPass.cpp leaves, and the blocks
-- that it keeps.
use mathlib.Core.Path.{subst}
use asm_studio.Prelude.{
  ℕ, ◌≡◌, refl, sym, ap, ◌∙◌, Bool, true, false, not, Option, none, some, List, [], ◌∷◌, arith,
  if◌then◌else◌, length, get_elem?, keep_if, contains_id, ◌==◌, Bool-cases, inl, inr,
}
use asm_studio.Ir.{IrBlock, IrFunction, find_block, find_by_id, entry_block, rebuild_block_index}
use asm_studio.Sim.State.{initial_frame, entry_id}
use asm_studio.Optimizer.Unreachable.{unreachable_block_elim, eliminate, remove_others}
use asm_studio.Optimizer.Targets.{JumpsTo}
use asm_studio.Optimizer.Identifiers.{Has, Has-head}
use asm_studio.Optimizer.Reachable.{find_reachable_block_ids-Explored}

abbrev eliminated_or : IrFunction → Option (IrFunction × Bool) → IrFunction
eliminated_or g none = g
eliminated_or g (some (g', changed)) = g'

-- The function after the pass.
unfoldable pub eliminated : IrFunction → IrFunction
eliminated g = eliminated_or g (unreachable_block_elim g)

-- The block index is up to date.
abbrev pub IsIndexed : IrFunction → Type 0
IsIndexed g = (id : ℕ) → find_block g id ≡ find_by_id id g.blocks

-- The new function has the blocks of a set of identifiers that has the entry and is closed under
-- targets.
pub record Region (g g' : IrFunction) (r : List ℕ) : Type 0 where
  pub blocks : g'.blocks ≡ keep_if (λ (b : IrBlock). contains_id b.id r) g.blocks
  pub values : g'.values ≡ g.values
  pub name : g'.name ≡ g.name
  pub entry : Has r (entry_id (entry_block g))
  pub closed :
      (id : ℕ) (block : IrBlock) (target : ℕ)
      → Has r id
      → find_by_id id g.blocks ≡ some block
      → JumpsTo block target
      → Has r target

removed-Region :
    (g : IrFunction) (r : List ℕ)
    → Has r (entry_id (entry_block g))
    → ((id : ℕ) (block : IrBlock) (target : ℕ)
        → Has r id
        → find_by_id id g.blocks ≡ some block
        → JumpsTo block target
        → Has r target)
    → Region g (eliminated_or g (remove_others g (some r))) r
unfolding rebuild_block_index
removed-Region g r has closed =
    go (not (length (keep_if (λ (b : IrBlock). contains_id b.id r) g.blocks) == length g.blocks))
  where
    removed : IrFunction
    removed = record g { blocks = keep_if (λ (b : IrBlock). contains_id b.id r) g.blocks }

    go : (b : Bool) → Region g (if b then rebuild_block_index removed else removed) r
    go true = record { blocks = refl; values = refl; name = refl; entry = has; closed = closed }
    go false = record { blocks = refl; values = refl; name = refl; entry = has; closed = closed }

eliminate-Region :
    (g : IrFunction) (bs : List IrBlock)
    → g.blocks ≡ bs
    → IsIndexed g
    → (r : List ℕ) × Region g (eliminated_or g (eliminate g bs)) r
unfolding entry_block
eliminate-Region g [] e indexed = (
  0 ∷ [],
  record {
    blocks = e ∙ ap (keep_if (λ (b : IrBlock). contains_id b.id (0 ∷ []))) (sym e);
    values = refl;
    name = refl;
    entry = subst (λ l. Has (0 ∷ []) (entry_id (get_elem? l 0))) (sym e) (Has-head 0 []);
    closed = λ id block target h k m. absurd (nothing id block (sym (ap (find_by_id id) e) ∙ k));
  },
)
  where
    nothing : (id : ℕ) (block : IrBlock) → none ≡ some block → ⊥
    nothing id block p = cc
eliminate-Region g (entry ∷ bs) e indexed =
    let (r, q, has, explored) = find_reachable_block_ids-Explored g entry.id in
    (
      r,
      subst (λ o. Region g (eliminated_or g (remove_others g o)) r) (sym q)
          (removed-Region g r (subst (λ l. Has r (entry_id (get_elem? l 0))) (sym e) has)
            (λ id block target h k m. explored id h block (indexed id ∙ k) target m)),
    )

pub eliminated-Region : (g : IrFunction) → IsIndexed g → (r : List ℕ) × Region g (eliminated g) r
unfolding eliminated unreachable_block_elim
eliminated-Region g indexed = eliminate-Region g g.blocks refl indexed

find_by_id-keep_if :
    (id : ℕ) (r : List ℕ) (blocks : List IrBlock)
    → Has r id
    → find_by_id id (keep_if (λ (b : IrBlock). contains_id b.id r) blocks) ≡ find_by_id id blocks
find_by_id-keep_if id r [] h = refl
find_by_id-keep_if id r (b ∷ blocks) h = elim (Bool-cases (contains_id b.id r)) [
  | inl e ↦ rw e (ap (λ o. if b.id == id then some b else o) (find_by_id-keep_if id r blocks h))
  | inr e ↦
      let other : (b.id == id) ≡ false = ground (arith, differ e) in
      rw (e, other) (find_by_id-keep_if id r blocks h)
]
  where
    differ : contains_id b.id r ≡ false → b.id ≡ id → ⊥
    differ e q = clash (sym (ap (λ x. contains_id x r) q ∙ h) ∙ e)
      where
        clash : true ≡ false → ⊥
        clash p = cc

pub find_by_id-Region :
    (g g' : IrFunction) (r : List ℕ) (id : ℕ)
    → Region g g' r
    → Has r id
    → find_by_id id g'.blocks ≡ find_by_id id g.blocks
find_by_id-Region g g' r id h k = ap (find_by_id id) h.blocks ∙ find_by_id-keep_if id r g.blocks k

pub initial_frame-Region :
    (g g' : IrFunction) (r : List ℕ) → Region g g' r → initial_frame g' ≡ initial_frame g
unfolding initial_frame entry_block
initial_frame-Region g g' r h =
    ap (λ n. initial_frame (record g' { name = n })) h.name
    ∙ ap (λ vs. initial_frame (record g' { name = g.name; values = vs })) h.values
    ∙ ap (λ bs. initial_frame (record g { blocks = bs })) h.blocks
    ∙ first g.blocks h.entry
  where
    first :
        (bs : List IrBlock)
        → Has r (entry_id (get_elem? bs 0))
        → initial_frame (record g { blocks = keep_if (λ (b : IrBlock). contains_id b.id r) bs })
          ≡ initial_frame (record g { blocks = bs })
    first [] e = refl
    first (b ∷ bs) e = rw e refl

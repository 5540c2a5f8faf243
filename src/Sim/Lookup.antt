-- ===== src/Sim/Lookup.antt =====
-- The block lookups of include/asmstudio/ir/IRTypes.hpp and src/sim/Simulator.cpp against the search
-- of the list.
use asm_studio.Prelude.{
  ℕ, suc, ◌+◌, ◌≡◌, refl, sym, ap, ◌∙◌, Bool, true, false, Option, none, some, List, [], ◌∷◌, arith,
  if◌then◌else◌, is_some, is_empty, get_elem?, lookup_id, emplace, ◌==◌, ==_iff, ==_refl,
  Bool-cases, inl, inr,
}
use asm_studio.Ir.{
  IrBlock, IrFunction, find_by_id, block_at_index, index_blocks, rebuild_block_index, find_block,
}
use asm_studio.Sim.State.{emplace_blocks, cached_block}
use asm_studio.Sim.State.{find_block as cache_find_block}

-- An entry stays, and a new one counts where there is none.
lookup_id-emplace_kept :
    (id k v w : ℕ) (index : List (ℕ × ℕ))
    → lookup_id id index ≡ some w
    → lookup_id id (emplace k v index) ≡ some w
lookup_id-emplace_kept id k v w index h = elim (Bool-cases (is_some (lookup_id k index))) [
  | inl e ↦ rw e h
  | inr e ↦ rw e (elim (Bool-cases (k == id)) [
    | inl q ↦ absurd (clash (ap (λ x. is_some (lookup_id x index)) ((==_iff k id).0 q)) e)
    | inr q ↦ rw q h
  ])
]
  where
    clash :
        is_some (lookup_id k index) ≡ is_some (lookup_id id index)
        → is_some (lookup_id k index) ≡ false
        → ⊥
    clash p e = true-false (sym (ap is_some h) ∙ sym p ∙ e)
      where
        true-false : true ≡ false → ⊥
        true-false q = cc

lookup_id-emplace_new :
    (id v : ℕ) (index : List (ℕ × ℕ))
    → lookup_id id index ≡ none
    → lookup_id id (emplace id v index) ≡ some v
lookup_id-emplace_new id v index h = rw (ap is_some h) (rw (==_refl id) refl)

lookup_id-emplace_other :
    (id k v : ℕ) (index : List (ℕ × ℕ))
    → (k == id) ≡ false
    → lookup_id id index ≡ none
    → lookup_id id (emplace k v index) ≡ none
lookup_id-emplace_other id k v index d h = elim (Bool-cases (is_some (lookup_id k index))) [
  | inl e ↦ rw e h
  | inr e ↦ rw e (rw d h)
]

index_blocks_kept :
    (id w i : ℕ) (blocks : List IrBlock) (index : List (ℕ × ℕ))
    → lookup_id id index ≡ some w
    → lookup_id id (index_blocks i blocks index) ≡ some w
index_blocks_kept id w i [] index h = h
index_blocks_kept id w i (block ∷ blocks) index h =
    index_blocks_kept id w (i + 1) blocks (emplace block.id i index)
      (lookup_id-emplace_kept id block.id i w index h)

-- `all` has `blocks` from position `i` on.
block_at_index-index_blocks :
    (id : ℕ) (all : List IrBlock) (i : ℕ) (blocks : List IrBlock) (index : List (ℕ × ℕ))
    → lookup_id id index ≡ none
    → ((j : ℕ) → get_elem? all (i + j) ≡ get_elem? blocks j)
    → block_at_index all (lookup_id id (index_blocks i blocks index)) ≡ find_by_id id blocks
block_at_index-index_blocks id all i [] index h at = rw h refl
block_at_index-index_blocks id all i (block ∷ blocks) index h at =
    elim (Bool-cases (block.id == id)) [
      | inl e ↦
          let q : block.id ≡ id = (==_iff block.id id).0 e in
          ap (block_at_index all) (
            index_blocks_kept id i (i + 1) blocks (emplace block.id i index)
              (ap (λ k. lookup_id id (emplace k i index)) q ∙ lookup_id-emplace_new id i index h))
          ∙ ap (get_elem? all) (omega arith)
          ∙ at 0
          ∙ rw e refl
      | inr e ↦ rw e (
          block_at_index-index_blocks id all (i + 1) blocks (emplace block.id i index)
            (lookup_id-emplace_other id block.id i index e h)
            (λ j. ap (get_elem? all) (omega arith) ∙ at (suc j)))
    ]

emplace_blocks_lem :
    (i : ℕ) (blocks : List IrBlock) (index : List (ℕ × ℕ))
    → emplace_blocks i blocks index ≡ index_blocks i blocks index
emplace_blocks_lem i [] index = refl
emplace_blocks_lem i (block ∷ blocks) index =
    emplace_blocks_lem (i + 1) blocks (emplace block.id i index)

cached_block_lem :
    (blocks : List IrBlock) (index : Option ℕ)
    → cached_block blocks index ≡ block_at_index blocks index
cached_block_lem blocks none = refl
cached_block_lem blocks (some i) = refl

-- `findBlock` of a function whose index has just been rebuilt, and that of the simulator on the index
-- that its constructor makes for the function, find what a search of the blocks in order finds: the
-- first block with the identifier, also where two blocks share one.
pub find_block-rebuild_block_index :
    (function : IrFunction) (id : ℕ)
    → (find_block (rebuild_block_index function) id ≡ find_by_id id function.blocks)
      × (cache_find_block
            (record {
              function = function;
              block_index_by_id = emplace_blocks 0 function.blocks [];
            })
            id
          ≡ find_by_id id function.blocks)
unfolding find_block rebuild_block_index cache_find_block
find_block-rebuild_block_index function id = (
  go (is_empty (index_blocks 0 function.blocks [])),
  cached_block_lem function.blocks (lookup_id id (emplace_blocks 0 function.blocks []))
      ∙ ap (λ index. block_at_index function.blocks (lookup_id id index))
          (emplace_blocks_lem 0 function.blocks [])
      ∙ indexed,
)
  where
    indexed :
        block_at_index function.blocks (lookup_id id (index_blocks 0 function.blocks []))
        ≡ find_by_id id function.blocks
    indexed =
        block_at_index-index_blocks id function.blocks 0 function.blocks [] refl
          (λ j. ap (get_elem? function.blocks) (omega arith))

    go :
        (b : Bool)
        → (if b
            then find_by_id id function.blocks
            else block_at_index function.blocks (lookup_id id (index_blocks 0 function.blocks [])))
          ≡ find_by_id id function.blocks
    go true = refl
    go false = indexed

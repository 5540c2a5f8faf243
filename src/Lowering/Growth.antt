-- ===== src/Lowering/Growth.antt =====
-- `LoweringContext` of src/ir/Lowering.cpp: how the code of blocks grows.
use mathlib.Core.List.{append_assoc, append-nil}
use native.Mathlib.Decide.{ℕ_discrete}
use asm_studio.Prelude.{
  ℕ, zero, suc, ◌+◌, ◌≤◌, ◌<◌, ◌≡◌, ◌≢◌, ◌⊎◌, inl, inr, refl, sym, ap, ◌∙◌, List, [], ◌∷◌, ◌++◌,
  String, arith, length, length-append, get_elem?,
}
use asm_studio.Ir.{IrInstr, IrBlock, IrFunction}
use asm_studio.Lowering.Context.{LoweringContext, alloc_block, next_loop_index, next_if_index}
use asm_studio.Lowering.Invariant.{
  IsWellFormed, IsValidInstr, Extends, Returns, Returns-map, next_loop_index-Returns,
  next_if_index-Returns,
}
use asm_studio.Lowering.Operations.{emit-Returns, alloc_block-Returns}
use asm_studio.Lowering.Valid.{HasBlock}
use asm_studio.Lowering.Context.{emit}
use asm_studio.Lowering.Emitted.{instrs_of, instrs_at, EmitsCode, Yields, Returns-and, emit-Yields}
use asm_studio.Lowering.Endings.{Contains}

-- Code is put behind what was there; of the blocks that were there, only one gets any.
pub record Grows (block : ℕ) (c d : LoweringContext) : Type 0 where
  pub extended : (n : ℕ) → (code : List IrInstr) × (instrs_at d n ≡ instrs_at c n ++ code)
  pub untouched : (n : ℕ) → n < length c.function.blocks → block ≢ n → instrs_at d n ≡ instrs_at c n
  pub names : d.variable_table ≡ c.variable_table
  pub more_blocks : length c.function.blocks ≤ length d.function.blocks

-- Either the block itself or a new one.
abbrev pub GoesOn : ℕ → LoweringContext → ℕ → Type 0
GoesOn block c block' = (block' ≡ block) ⊎ (length c.function.blocks ≤ block')

pub Grows-refl : (block : ℕ) (c : LoweringContext) → Grows block c c
Grows-refl block c = record {
  extended = λ n. ([], sym (append-nil (instrs_at c n)));
  untouched = λ n l h. refl;
  names = refl;
  more_blocks = omega arith;
}

pub Grows-trans :
    (block block' : ℕ) (c d e : LoweringContext)
    → GoesOn block c block'
    → Grows block c d
    → Grows block' d e
    → Grows block c e
Grows-trans block block' c d e on h k = record {
  extended = λ n.
      let (xs, p) = h.extended n in
      let (ys, q) = k.extended n in
      (xs ++ ys, q ∙ ap (λ l. l ++ ys) p ∙ append_assoc (instrs_at c n) xs ys);
  untouched = λ n l ne.
      k.untouched n (omega (arith, l, h.more_blocks)) (other on n l ne) ∙ h.untouched n l ne;
  names = k.names ∙ h.names;
  more_blocks = omega (arith, h.more_blocks, k.more_blocks);
}
  where
    other :
        (block' ≡ block) ⊎ (length c.function.blocks ≤ block')
        → (n : ℕ) → n < length c.function.blocks
        → block ≢ n
        → block' ≢ n
    other (inl e') n l ne = λ q. ne (sym e' ∙ q)
    other (inr l') n l ne = omega (arith, l, l')

pub EmitsCode-Grows :
    (block : ℕ) (c d : LoweringContext) (code : List IrInstr)
    → HasBlock c block
    → Extends c d
    → EmitsCode block c d code
    → Grows block c d
EmitsCode-Grows block c d code hb x h = record {
  extended = λ n. at n;
  untouched = λ n l ne. h.elsewhere n ne;
  names = h.names;
  more_blocks = x.blocks_kept;
}
  where
    at : (n : ℕ) → (more : List IrInstr) × (instrs_at d n ≡ instrs_at c n ++ more)
    at n = elim (ℕ_discrete block n) [
      | yes e ↦ (code, ap (instrs_at d) (sym e) ∙ h.here ∙ ap (λ m. instrs_at c m ++ code) e)
      | no ne ↦ ([], h.elsewhere n ne ∙ sym (append-nil (instrs_at c n)))
    ]

-- A function that has the later code has the earlier.
pub Contains-Grows :
    (g : IrFunction) (block : ℕ) (c d : LoweringContext)
    → Grows block c d
    → Contains g d
    → Contains g c
Contains-Grows g block c d h k n =
    let (xs, p) = h.extended n in
    let (rest, q) = k n in
    (xs ++ rest, q ∙ ap (λ l. l ++ rest) p ∙ append_assoc (instrs_at c n) xs rest)

instrs_of-append :
    (bs : List IrBlock) (b : IrBlock) (n : ℕ)
    → b.instrs ≡ []
    → instrs_of (get_elem? (bs ++ b ∷ []) n) ≡ instrs_of (get_elem? bs n)
instrs_of-append [] b zero h = h
instrs_of-append [] b (suc n) h = refl
instrs_of-append (x ∷ bs) b zero h = refl
instrs_of-append (x ∷ bs) b (suc n) h = instrs_of-append bs b n h

instrs_of-beyond : (bs : List IrBlock) (n : ℕ) → length bs ≤ n → instrs_of (get_elem? bs n) ≡ []
instrs_of-beyond [] n h = refl
instrs_of-beyond (x ∷ bs) zero h = absurd (omega (arith, h))
instrs_of-beyond (x ∷ bs) (suc n) h = instrs_of-beyond bs n (omega (arith, h))

module _ (c : LoweringContext) (w : IsWellFormed c) (block : ℕ) where
  -- A new block is empty, and nothing else changes.
  alloc_block-Yields :
      (name : String)
      → Yields
          (λ id d.
            (id ≡ length c.function.blocks)
            × Grows block c d
            × (length d.function.blocks ≡ length c.function.blocks + 1)
            × ((n : ℕ) → instrs_at d n ≡ instrs_at c n))
          (alloc_block name c)
  unfolding alloc_block
  alloc_block-Yields name =
      let b : IrBlock = record { name = name; id = c.next_block; instrs = [] } in
      let same : (n : ℕ) → instrs_of (get_elem? (c.function.blocks ++ b ∷ []) n) ≡ instrs_at c n =
        λ n. instrs_of-append c.function.blocks b n refl in
      (
        w.blocks_counted,
        record {
          extended = λ n. ([], same n ∙ sym (append-nil (instrs_at c n)));
          untouched = λ n l ne. same n;
          names = refl;
          more_blocks = omega (arith, length-append c.function.blocks (b ∷ []));
        },
        length-append c.function.blocks (b ∷ []),
        same,
      )

-- The block is the next one, it is empty, and nothing else changes.
pub record NewBlock (block : ℕ) (c : LoweringContext) (id : ℕ) (d : LoweringContext) : Type 0 where
  pub is_next : id ≡ length c.function.blocks
  pub grows : Grows block c d
  pub counted : length d.function.blocks ≡ length c.function.blocks + 1
  pub same : (n : ℕ) → instrs_at d n ≡ instrs_at c n
  pub nothing : instrs_at d id ≡ []

pub alloc_block-NewBlock :
    (c : LoweringContext) (block : ℕ) (name : String)
    → IsWellFormed c
    → Returns c (NewBlock block c) (alloc_block name c)
alloc_block-NewBlock c block name w =
    Returns-map c _ (NewBlock block c) _
      (Returns-and c _ _ _ (alloc_block-Returns c w name) (alloc_block-Yields c w block name))
      λ id d wd x p. record {
        is_next = p.1.0;
        grows = p.1.1;
        counted = p.1.2;
        same = p.1.3;
        nothing = p.1.3 id ∙ instrs_of-beyond c.function.blocks id (omega (arith, p.1.0));
      }

-- One instruction at the end of a block.
pub emit-EmitsCode :
    (c : LoweringContext) (block : ℕ) (i : IrInstr)
    → IsWellFormed c
    → HasBlock c block
    → IsValidInstr (length c.function.blocks) c.function.values i
    → Returns c (λ u d. EmitsCode block c d (i ∷ [])) (emit block i c)
emit-EmitsCode c block i w hb v =
    Returns-map c _ (λ u d. EmitsCode block c d (i ∷ [])) _
      (Returns-and c _ _ _ (emit-Returns c w block i hb v) (emit-Yields c w block i hb))
      λ u d wd x p. p.1

-- The counters of loops and branches are not in the code.
pub next_loop_index-Grows :
    (c : LoweringContext) (block : ℕ)
    → IsWellFormed c
    → Returns c
        (λ n d. (d.function ≡ c.function) × (d.variable_table ≡ c.variable_table))
        (next_loop_index c)
unfolding next_loop_index
next_loop_index-Grows c block w = let r = next_loop_index-Returns c w in (r.0, r.1, (refl, refl))

pub next_if_index-Grows :
    (c : LoweringContext) (block : ℕ)
    → IsWellFormed c
    → Returns c
        (λ n d. (d.function ≡ c.function) × (d.variable_table ≡ c.variable_table))
        (next_if_index c)
unfolding next_if_index
next_if_index-Grows c block w = let r = next_if_index-Returns c w in (r.0, r.1, (refl, refl))

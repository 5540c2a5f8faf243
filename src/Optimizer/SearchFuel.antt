-- ===== src/Optimizer/SearchFuel.antt =====
-- The worklist of src/transforms/passes/UnreachableBlockEliminationPass.cpp and the fuel of its loop.
use mathlib.Core.Path.{subst}
use mathlib.Core.Option.{some-injective}
use asm_studio.Prelude.{
  ℕ, zero, suc, ◌+◌, ◌≤◌, ◌<◌, ◌≡◌, refl, ap, ◌∙◌, Bool, true, false, ◌||◌, Option, none, some,
  List, [], ◌∷◌, ◌++◌, arith, if◌then◌else◌, length, get_elem?, contains_id, ◌==◌, ==_iff,
  Bool-cases, inl, inr, All, All-map, lookup_id, is_empty, any, ==_refl,
}
use asm_studio.Ir.{IrBlock, IrFunction, find_block, find_by_id, block_at_index}
use asm_studio.Optimizer.Unreachable.{
  Search, enqueue_block, enqueue_all, visit, search_loop, search_fuel, find_reachable_block_ids,
  instr_targets, block_targets,
}

-- How many of the targets are not yet reached.
missing : List ℕ → List ℕ → ℕ
missing reachable [] = 0
missing reachable (t ∷ targets) =
    (if contains_id t reachable then 0 else 1) + missing reachable targets

missing-le :
    (r : ℕ) (reachable targets : List ℕ)
    → missing (r ∷ reachable) targets ≤ missing reachable targets
unfolding missing
missing-le r reachable [] = omega arith
missing-le r reachable (t ∷ targets) = ground (arith, missing-le r reachable targets)

missing-lt :
    (r : ℕ) (reachable targets : List ℕ)
    → contains_id r targets ≡ true
    → contains_id r reachable ≡ false
    → missing (r ∷ reachable) targets < missing reachable targets
unfolding missing
missing-lt r reachable [] h k = cc
missing-lt r reachable (t ∷ targets) h k = elim (Bool-cases (t == r)) [
  | inl e ↦
      let same : contains_id t reachable ≡ contains_id r reachable =
        ap (λ x. contains_id x reachable) ((==_iff t r).0 e) in
      ground (arith, same, k, (==_iff t r).0 e, missing-le r reachable targets)
  | inr e ↦ ground (arith, e, missing-lt r reachable targets)
]

missing-le-length : (reachable targets : List ℕ) → missing reachable targets ≤ length targets
unfolding missing
missing-le-length reachable [] = omega arith
missing-le-length reachable (t ∷ targets) = ground (arith, missing-le-length reachable targets)

any-append :
    {A : Type 0} (p : A → Bool) (xs ys : List A) → any p (xs ++ ys) ≡ (any p xs || any p ys)
any-append p [] ys = refl
any-append p (x ∷ xs) ys = ground (arith, any-append p xs ys)

abbrev Contained : List ℕ → List ℕ → Type 0
Contained targets = All (λ t. contains_id t targets ≡ true)

Contained-left : (xs ys zs : List ℕ) → Contained xs zs → Contained (xs ++ ys) zs
Contained-left xs ys zs =
    All-map _ _ (λ t h. any-append (λ x. x == t) xs ys ∙ ap (λ b. b || any (λ x. x == t) ys) h) zs

Contained-right : (xs ys zs : List ℕ) → Contained ys zs → Contained (xs ++ ys) zs
Contained-right xs ys zs = All-map _ _ (λ t h. ground (arith, any-append (λ x. x == t) xs ys, h)) zs

Contained-self : (xs : List ℕ) → Contained xs xs
Contained-self [] = tt
Contained-self (x ∷ xs) =
    (ground (arith, ==_refl x), Contained-right (x ∷ []) xs xs (Contained-self xs))

-- A block that is found has its targets among those of the function.
head-Contained :
    (b block : IrBlock) (targets : List ℕ)
    → some b ≡ some block
    → Contained (instr_targets b.instrs ++ targets) (instr_targets block.instrs)
head-Contained b block targets e =
    subst (λ (k : IrBlock). Contained (instr_targets b.instrs ++ targets) (instr_targets k.instrs))
      (some-injective b block e)
      (Contained-left (instr_targets b.instrs) targets (instr_targets b.instrs)
        (Contained-self (instr_targets b.instrs)))

module _ (block : IrBlock) where
  find_by_id-Contained :
      (id : ℕ) (blocks : List IrBlock)
      → find_by_id id blocks ≡ some block
      → Contained (block_targets blocks) (instr_targets block.instrs)
  find_by_id-Contained id [] e = cc
  find_by_id-Contained id (b ∷ blocks) e = go (b.id == id) (find_by_id-Contained id blocks) e
    where
      go :
          (t : Bool)
          → (find_by_id id blocks ≡ some block
              → Contained (block_targets blocks) (instr_targets block.instrs))
          → (if t then some b else find_by_id id blocks) ≡ some block
          → Contained (block_targets (b ∷ blocks)) (instr_targets block.instrs)
      go true ih k = head-Contained b block (block_targets blocks) k
      go false ih k = Contained-right (instr_targets b.instrs) (block_targets blocks) _ (ih k)

  get_elem?-Contained :
      (blocks : List IrBlock) (n : ℕ)
      → get_elem? blocks n ≡ some block
      → Contained (block_targets blocks) (instr_targets block.instrs)
  get_elem?-Contained [] n e = cc
  get_elem?-Contained (b ∷ blocks) zero e = head-Contained b block (block_targets blocks) e
  get_elem?-Contained (b ∷ blocks) (suc n) e =
      Contained-right (instr_targets b.instrs) (block_targets blocks) _
        (get_elem?-Contained blocks n e)

  find_block-Contained :
      (function : IrFunction) (id : ℕ)
      → find_block function id ≡ some block
      → Contained (block_targets function.blocks) (instr_targets block.instrs)
  unfolding find_block
  find_block-Contained function id e =
      go (is_empty function.block_index) (lookup_id id function.block_index) e
    where
      go :
          (t : Bool) (index : Option ℕ)
          → (if t then find_by_id id function.blocks else block_at_index function.blocks index)
            ≡ some block
          → Contained (block_targets function.blocks) (instr_targets block.instrs)
      go true index k = find_by_id-Contained id function.blocks k
      go false none k = cc
      go false (some n) k = get_elem?-Contained function.blocks n k

-- What is still to be done: the worklist, and the targets not reached yet.
abbrev work : List ℕ → Search → ℕ
work targets s = length s.worklist + missing s.reachable targets

module _ (targets : List ℕ) where
  enqueue_block-work :
      (s : Search) (t : ℕ)
      → contains_id t targets ≡ true
      → work targets (enqueue_block s t) ≤ work targets s
  unfolding enqueue_block
  enqueue_block-work s t h = elim (Bool-cases (contains_id t s.reachable)) [
    | inl e ↦ rw e (omega arith)
    | inr e ↦ rw e (omega (arith, missing-lt t s.reachable targets h e))
  ]

  enqueue_all-work :
      (s : Search) (ts : List ℕ)
      → Contained targets ts
      → work targets (enqueue_all s ts) ≤ work targets s
  unfolding enqueue_all
  enqueue_all-work s [] h = omega arith
  enqueue_all-work s (t ∷ ts) h =
      omega (arith, enqueue_all-work (enqueue_block s t) ts h.1, enqueue_block-work s t h.0)

  visit-work :
      (s : Search) (block : Option IrBlock)
      → ((b : IrBlock) → block ≡ some b → Contained targets (instr_targets b.instrs))
      → work targets (visit s block) ≤ work targets s
  visit-work s none h = omega arith
  visit-work s (some b) h = enqueue_all-work s (instr_targets b.instrs) (h b refl)

search_loop-ends :
    (function : IrFunction) (fuel : ℕ) (reachable worklist : List ℕ)
    → length worklist + missing reachable (block_targets function.blocks) ≤ fuel
    → (r : List ℕ) × (search_loop function fuel reachable worklist ≡ some r)
unfolding search_loop
search_loop-ends function fuel reachable [] h = (reachable, refl)
search_loop-ends function zero reachable (current ∷ worklist) h = absurd (omega arith)
search_loop-ends function (suc fuel) reachable (current ∷ worklist) h =
    search_loop-ends function fuel _ _ (
      omega (
        arith,
        visit-work (block_targets function.blocks)
            (record { reachable = reachable; worklist = worklist }) (find_block function current)
            (λ b e. find_block-Contained b function current e),
      ))

-- The search for reachable blocks ends, whatever the function's blocks, targets and block index.
pub find_reachable_block_ids-ends :
    (function : IrFunction) (entry : ℕ)
    → (r : List ℕ) × (find_reachable_block_ids function entry ≡ some r)
unfolding find_reachable_block_ids
find_reachable_block_ids-ends function entry =
    search_loop-ends function (search_fuel function) (entry ∷ []) (entry ∷ [])
      (omega (arith, missing-le-length (entry ∷ []) (block_targets function.blocks)))

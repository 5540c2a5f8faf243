-- ===== src/Lowering/Operations.antt =====
-- `allocBlock`, `emit`, `setVariable` and the lookups of `LoweringContext` in src/ir/Lowering.cpp
-- and its invariant.
use native.Mathlib.Decide.{ℕ_discrete}
use mathlib.Core.Path.{subst}
use mathlib.Core.Option.{some-injective}
use text.Mathlib.TextEquality.{eq_iff}
use asm_studio.Prelude.{
  ℕ, zero, suc, ◌+◌, ◌≤◌, ◌<◌, ◌≡◌, ◌⊎◌, refl, sym, ap, ◌∙◌, Bool, true, false, none, some, List,
  [], ◌∷◌, ◌++◌, String, str_eq, arith, if◌then◌else◌, ◌==◌, length, get_elem?, set, length-append,
  length-set, All, All-append, All-get, is_some, lookup_id, emplace, get_elem?-set_self,
  get_elem?-set_ne, inl, inr,
}
use asm_studio.Ir.{IrInstr, IrBlock, constant_at}
use asm_studio.Lowering.Context.{
  LoweringContext, alloc_block, emit, append_at, type_at, set_variable, insert_or_assign,
  lookup_name,
}
use asm_studio.Lowering.Invariant.{IsValidInstr, IsWellFormed, Extends-refl, Returns, blocks_mono}

module _ {A : Type 0} where
  get_elem?-snoc :
      (xs : List A) (y : A) (n : ℕ) (b : A)
      → get_elem? (xs ++ y ∷ []) n ≡ some b
      → (get_elem? xs n ≡ some b) ⊎ ((n ≡ length xs) × (y ≡ b))
  get_elem?-snoc [] y zero b e = inr (refl, some-injective y b e)
  get_elem?-snoc [] y (suc n) b e = cc
  get_elem?-snoc (x ∷ xs) y zero b e = inl e
  get_elem?-snoc (x ∷ xs) y (suc n) b e = ground (arith, get_elem?-snoc xs y n b e)

  get_elem?-some : (xs : List A) (n : ℕ) → n < length xs → (a : A) × (get_elem? xs n ≡ some a)
  get_elem?-some [] n h = elim h [ ]
  get_elem?-some (x ∷ xs) zero h = (x, refl)
  get_elem?-some (x ∷ xs) (suc n) h = get_elem?-some xs n (omega arith)

  All-set {κ} : (P : A → Type κ) (xs : List A) (n : ℕ) (a : A) → All P xs → P a → All P (set xs n a)
  All-set P [] n a h k = h
  All-set P (x ∷ xs) zero a h k = (k, h.1)
  All-set P (x ∷ xs) (suc n) a h k = (h.0, All-set P xs n a h.1 k)

lookup_id-emplace :
    (k j v : ℕ) (m : List (ℕ × ℕ))
    → lookup_id k m ≡ none
    → lookup_id j (emplace k v m) ≡ (if k == j then some v else lookup_id j m)
lookup_id-emplace k j v m h = ground (arith, h)

pub lookup_name-insert_or_assign :
    (k j : String) (v : ℕ) (m : List (String × ℕ))
    → lookup_name j (insert_or_assign k v m) ≡ (if str_eq k j then some v else lookup_name j m)
lookup_name-insert_or_assign k j v [] = refl
lookup_name-insert_or_assign k j v ((i, w) ∷ m) =
    ground (arith, eq_iff k j, eq_iff i k, eq_iff i j, lookup_name-insert_or_assign k j v m)

module _ (c : LoweringContext) (w : IsWellFormed c) where
  -- The new block has the next identifier.
  pub alloc_block-Returns :
      (name : String)
      → Returns c
          (λ id d. (id < length d.function.blocks) × (length c.function.blocks ≤ id))
          (alloc_block name c)
  unfolding alloc_block
  alloc_block-Returns name =
      let b : IrBlock = record { name = name; id = c.next_block; instrs = [] } in
      let grown : length (c.function.blocks ++ b ∷ []) ≡ length c.function.blocks + 1 =
        length-append c.function.blocks (b ∷ []) in
      let fresh : lookup_id c.next_block c.block_index ≡ none =
        w.unindexed c.next_block (omega (arith, w.blocks_counted)) in
      (
        record {
          values_counted = w.values_counted;
          blocks_counted = omega (arith, w.blocks_counted, grown);
          indexed = λ id h. ground (
            arith,
            lookup_id-emplace c.next_block id (length c.function.blocks) c.block_index fresh,
            w.blocks_counted,
            w.indexed id,
            grown,
          );
          unindexed = λ id h. ground (
            arith,
            lookup_id-emplace c.next_block id (length c.function.blocks) c.block_index fresh,
            w.blocks_counted,
            w.unindexed id,
            grown,
          );
          numbered = λ n k e. elim (get_elem?-snoc c.function.blocks b n k e) [
            | inl h ↦ w.numbered n k h
            | inr h ↦ sym (ap (λ (x : IrBlock). x.id) h.1) ∙ w.blocks_counted ∙ sym h.0
          ];
          valid =
              All-append _ c.function.blocks (b ∷ [])
                (blocks_mono _ _ c.function.values c.function.values c.function.blocks
                  (omega (arith, grown)) (omega arith) (λ id h. refl) w.valid)
                (tt, tt);
          slots = w.slots;
        },
        record {
          values_kept = omega arith;
          blocks_kept = omega (arith, grown);
          constants_kept = λ id h. refl;
          names_kept = λ n h. h;
          title_kept = refl;
        },
        (omega (arith, w.blocks_counted, grown), omega (arith, w.blocks_counted)),
      )

  -- `blockAt` finds every block that was allocated.
  pub emit-Returns :
      (block_id : ℕ) (i : IrInstr)
      → block_id < length c.function.blocks
      → IsValidInstr (length c.function.blocks) c.function.values i
      → Returns c (λ u d. Unit) (emit block_id i c)
  unfolding emit
  emit-Returns block_id i h v =
      let (block, e) = get_elem?-some c.function.blocks block_id h in
      rw (w.indexed block_id h, e) (appended block e)
    where
      appended :
          (block : IrBlock)
          → get_elem? c.function.blocks block_id ≡ some block
          → Returns c (λ u d. Unit) (append_at c i block_id (some block))
      appended block e =
          let b : IrBlock = record block { instrs = block.instrs ++ i ∷ [] } in
          let same : length (set c.function.blocks block_id b) ≡ length c.function.blocks =
            length-set c.function.blocks block_id b in
          (
            record {
              values_counted = w.values_counted;
              blocks_counted = w.blocks_counted ∙ sym same;
              indexed = λ id l. w.indexed id (omega (arith, same));
              unindexed = λ id l. w.unindexed id (omega (arith, same));
              numbered = λ n k l. elim (ℕ_discrete block_id n) [
                | yes p ↦
                    subst (λ (x : IrBlock). x.id ≡ n)
                      (some-injective b k (
                        sym (get_elem?-set_self c.function.blocks block_id b h)
                        ∙ ap (get_elem? (set c.function.blocks block_id b)) p
                        ∙ l))
                      (w.numbered block_id block e ∙ p)
                | no d ↦
                    w.numbered n k (sym (get_elem?-set_ne c.function.blocks block_id n b d) ∙ l)
              ];
              valid =
                  blocks_mono _ _ c.function.values c.function.values
                    (set c.function.blocks block_id b) (omega (arith, same)) (omega arith)
                    (λ id l. refl)
                    (All-set _ c.function.blocks block_id b w.valid (
                      All-append _ block.instrs (i ∷ [])
                        (All-get _ c.function.blocks block_id block w.valid e) (v, tt)));
              slots = w.slots;
            },
            record {
              values_kept = omega arith;
              blocks_kept = omega (arith, same);
              constants_kept = λ id l. refl;
              names_kept = λ n l. l;
              title_kept = refl;
            },
            tt,
          )

  -- A name may stand for any value that has no constant.
  pub set_variable-Returns :
      (name : String) (id : ℕ)
      → id < length c.function.values
      → constant_at c.function.values id ≡ none
      → Returns c
          (λ u d. is_some (lookup_name name d.variable_table) ≡ true)
          (set_variable name id c)
  unfolding set_variable
  set_variable-Returns name id h k = (
    record {
      values_counted = w.values_counted;
      blocks_counted = w.blocks_counted;
      indexed = w.indexed;
      unindexed = w.unindexed;
      numbered = w.numbered;
      valid = w.valid;
      slots = λ j n e.
          slot j n (str_eq name j)
            (sym (lookup_name-insert_or_assign name j id c.variable_table) ∙ e);
    },
    record {
      values_kept = omega arith;
      blocks_kept = omega arith;
      constants_kept = λ n l. refl;
      names_kept =
          λ j l. ground (arith, lookup_name-insert_or_assign name j id c.variable_table, l);
      title_kept = refl;
    },
    ground (arith, lookup_name-insert_or_assign name name id c.variable_table, eq_iff name name),
  )
    where
      slot :
          (j : String) (n : ℕ) (b : Bool)
          → (if b then some id else lookup_name j c.variable_table) ≡ some n
          → (n < length c.function.values) × (constant_at c.function.values n ≡ none)
      slot j n true e =
          subst (λ x. (x < length c.function.values) × (constant_at c.function.values x ≡ none))
            (some-injective id n e) (h, k)
      slot j n false e = w.slots j n e

  pub type_at-Returns :
      (id : ℕ) → id < length c.function.values → Returns c (λ t d. Unit) (type_at id c)
  unfolding type_at
  type_at-Returns id h =
      let (v, e) = get_elem?-some c.function.values id h in rw e (w, Extends-refl c, tt)

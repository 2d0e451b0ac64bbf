-- ===== src/Alloc/FreeList.antt =====
-- The list of free blocks that starts at a block, as the blocks of the file link it, and the image
-- that `_allocData` writes.
use tarfs.Base.{
  ℕ, zero, suc, ◌+◌, ◌^◌, ◌≤◌, ◌<◌, ◌≡◌, ◌≢◌, refl, sym, ◌∙◌, subst, List, [], ◌∷◌, arith, length,
  All, add64,
}
use tarfs.Meta.{tarblk_none}
use tarfs.Manager.{Block, store}
use tarfs.Alloc.{free_block, free_image}

-- From block `p` the links lead through the blocks `bs`, and the last one ends the list.
pub data FreeList (f : ℕ → Block) : ℕ → List ℕ → Type 0 where
  stop : {p : ℕ} → p ≡ tarblk_none → FreeList f p []
  next :
      {p q : ℕ} {bs : List ℕ}
      → p ≢ tarblk_none
      → f p ≡ free_block q
      → FreeList f q bs
      → FreeList f p (p ∷ bs)

-- `n` numbers from `lo`
abbrev pub range : ℕ → ℕ → List ℕ
range lo zero = []
range lo (suc n) = lo ∷ range (lo + 1) n

pub All-range :
    (P : ℕ → Type 0) (lo n : ℕ) → ((b : ℕ) → lo ≤ b → b < lo + n → P b) → All P (range lo n)
All-range P lo zero h = tt
All-range P lo (suc n) h = (
  h lo (omega arith) (omega arith),
  All-range P (lo + 1) n λ b p q. h b (omega arith) (omega arith),
)

-- A list is kept by writes to other blocks.
pub FreeList-frame :
    {f g : ℕ → Block} {p : ℕ} {bs : List ℕ}
    → FreeList f p bs
    → All (λ b. g b ≡ f b) bs
    → FreeList g p bs
FreeList-frame (stop e) same = stop e
FreeList-frame (next ne e rest) (same, others) = next ne (same ∙ e) (FreeList-frame rest others)

pub store-below : (f : ℕ → Block) (k : ℕ) (xs : List Block) (b : ℕ) → b < k → store f k xs b ≡ f b
unfolding store
store-below f k [] b h = refl
store-below f k (x ∷ xs) b h = ground (arith, store-below f (k + 1) xs b)

pub length-free_image : (off rounds : ℕ) → length (free_image off rounds) ≡ rounds + 1
unfolding free_image
length-free_image off zero = omega arith
length-free_image off (suc n) = omega (arith, length-free_image (add64 off 1) n)

-- The image of `n + 1` blocks at block `k` is the list of these blocks.
pub FreeList-free_image :
    (f : ℕ → Block) (k off n : ℕ)
    → off ≡ k + 1
    → k + n < 2 ^ 63
    → FreeList (store f k (free_image off n)) k (range k (suc n))
unfolding free_image store
FreeList-free_image f k off zero e h = next (omega arith) (ground arith) (stop refl)
FreeList-free_image f k off (suc n) e h = next {q = off} (omega arith) (ground arith) (
    FreeList-frame
      (subst
        (λ p. FreeList (store f (k + 1) (free_image (add64 off 1) n)) p (range (k + 1) (suc n)))
        (sym e) (FreeList-free_image f (k + 1) (add64 off 1) n (omega arith) (omega arith)))
      (All-range _ (k + 1) (suc n) λ b p q. ground arith))

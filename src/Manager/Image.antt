-- ===== src/Manager/Image.antt =====
-- An image: an archive with metadata behind it.
use tarfs.Base.{ℕ, ◌+◌, ◌-◌, ◌^◌, ◌<◌, ◌≤◌, ◌≡◌, false, ltb, if◌then◌else◌, add64, arith}
use tarfs.Meta.{Sblock, tarsblock_magic}
use tarfs.Manager.{Block, sblock, World, update}

-- The file `image` is the archive `w` with metadata behind it. Its last block is the super block `sb`, whose
-- `tarfs_size` counts the blocks behind the archive but for `uncounted` ones.
pub record IsSealed (w image : World) (sb : Sblock) (uncounted : ℕ) : Type 0 where
  pub kept : (b : ℕ) → b < w.size → image.blocks b ≡ w.blocks b
  pub counted : sb.tarfs_size + (w.size + uncounted) ≡ image.size
  pub grown : w.size < image.size
  pub small : image.size ≤ image.capacity
  pub fits : image.capacity ≡ w.capacity
  pub last : image.blocks (image.size - 1) ≡ sblock sb
  pub magic : sb.tarfs_magic ≡ tarsblock_magic

-- One more block behind a file of `blks` blocks, where the device has room
pub grown_end :
    (blks capacity room : ℕ)
    → capacity ≡ room
    → room < 2 ^ 64
    → ltb capacity (blks + 1) ≡ false
    → add64 blks 1 ≡ blks + 1
grown_end blks capacity room e bounded c = ground arith

pub grown_size :
    (size blks capacity room : ℕ)
    → size ≡ blks
    → capacity ≡ room
    → room < 2 ^ 64
    → ltb capacity (blks + 1) ≡ false
    → (if ltb size (add64 blks 1) then add64 blks 1 else size) ≡ blks + 1
grown_size size blks capacity room same e bounded c = ground arith

pub update-here : (f : ℕ → Block) (k : ℕ) (x : Block) (b : ℕ) → b ≡ k → update f k x b ≡ x
update-here f k x b e = ground arith

pub update-other : (f : ℕ → Block) (k : ℕ) (x : Block) (b : ℕ) → b < k → update f k x b ≡ f b
update-other f k x b h = ground arith

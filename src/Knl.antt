-- ===== src/Knl.antt =====
-- The kernel module: knl/tarfs_common_lnx.c, its block I/O over the buffer cache, and
-- knl/tarfs_common.c, `tarfs_getDataBlock`.
pub mod Blocks
pub mod Dir
pub mod Readdir
pub mod Dtype
pub mod Inode
pub mod Search
pub mod Listing
pub mod Open
pub mod Super
use tarfs.Base.{
  ℕ, zero, suc, ◌+◌, ◌-◌, ◌*◌, ◌/◌, ◌%◌, ◌^◌, Bool, true, false, Option, none, some, List, [], ◌∷◌,
  ltb, leb, ◌==◌, ◌&&◌, not, if◌then◌else◌, add64,
}
use tarfs.Meta.{IndExt, Dinode, Dext, max_dinode_direct, tarblk_none}
use tarfs.Manager.{Block, ind_ext}
use tarfs.Extent.{hit, missed, overrun, find_extent, block_at}

-- `sb_bread` of the mounted device: `none` is NULL.
abbrev pub Device : Type 0
Device = ℕ → Option Block

-- `tarfs_io_t`: the block behind `io_bh` and `io_data`; and `refs`, the buffers that the module holds.
pub record Io : Type 0 where
  pub io_bh : Option Block
  pub refs : ℕ

pub data Errno : Type 0 where
  einval eio enoent enomem : Errno

pub data Run {ℓ} (A : Type ℓ) : Type ℓ where
  ok : A → Io → Run A
  fail : Errno → Io → Run A
  fault out_of_fuel : Run A

abbrev pub K {ℓ} : Type ℓ → Type ℓ
K A = Io → Run A

abbrev pub pure {ℓ} : {A : Type ℓ} → A → K A
pure = ok

module _ {ℓ κ} {A : Type ℓ} {B : Type κ} where
  abbrev pub and_then : Run A → (A → K B) → Run B
  and_then (ok a m) k = k a m
  and_then (fail e m) k = fail e m
  and_then fault k = fault
  and_then out_of_fuel k = out_of_fuel

  infixl 5 ◌>>=◌ ◌>>◌
  abbrev pub ◌>>=◌ : K A → (A → K B) → K B
  m >>= k = λ s. and_then (m s) k

  abbrev pub ◌>>◌ : K A → K B → K B
  m >> n = m >>= λ _. n

-- lnx_io_init
abbrev pub lnx_io_init : (refs : ℕ) → Io
lnx_io_init refs = record { io_bh = none; refs = refs }

-- lnx_bread
unfoldable pub lnx_bread : Device → ℕ → K Block
lnx_bread dev blkno io = elim (dev blkno) [
  | none ↦ fail eio io
  | some b ↦ ok b (record { io_bh = some b; refs = io.refs + 1 })
]

-- lnx_bput: a buffer that is held is released.
unfoldable pub lnx_bput : Io → Io
lnx_bput io = elim io.io_bh [ none ↦ io | some b ↦ record { io_bh = none; refs = io.refs - 1 } ]

-- The label `errdone:` and the `return` behind it
unfoldable pub release {ℓ} : {A : Type ℓ} → Run A → Run A
release (ok a io) = ok a (lnx_bput io)
release (fail e io) = fail e (lnx_bput io)
release fault = fault
release out_of_fuel = out_of_fuel

unfoldable pub as_ind_ext : Block → K IndExt
as_ind_ext (ind_ext x) io = ok x io
as_ind_ext _ io = fault

-- one indirect block of tarfs_getDataBlock's `while (1)`, with what follows it
unfoldable pub indirect_step : IndExt → ℕ → K ℕ → K ℕ
indirect_step x off rest = elim (find_extent x.ie_num x.ie_dext off) [
  | hit e ↦ pure (block_at e off)
  | overrun ↦ λ io. fault
  | missed ↦ if x.ie_next == tarblk_none then fail einval else λ io. rest (lnx_bput io)
]

unfoldable pub get_indirect : Device → ℕ → ℕ → ℕ → K ℕ
unfolding as_ind_ext indirect_step
get_indirect dev zero off ind_off = λ io. out_of_fuel
get_indirect dev (suc k) off ind_off = do
  buf ← lnx_bread dev ind_off
  x ← as_ind_ext buf
  let rest = get_indirect dev k off x.ie_next
  indirect_step x off rest

abbrev direct_num : Dinode → ℕ
direct_num ip = if leb ip.di_nextents max_dinode_direct then ip.di_nextents else max_dinode_direct

-- tarfs_getDataBlock, with `di_nExtents` rounds of fuel. The early `return -EINVAL` passes over
-- `errdone:`.
unfoldable pub tarfs_get_data_block : Device → Dinode → ℕ → K ℕ
tarfs_get_data_block dev ip off = elim (find_extent (direct_num ip) ip.di_direct_extent off) [
  | hit e ↦ λ io. release (ok (block_at e off) io)
  | overrun ↦ λ io. fault
  | missed ↦ if leb ip.di_nextents max_dinode_direct then fail einval else λ io.
      release (get_indirect dev ip.di_nextents off ip.di_root_ind_ext io)
]

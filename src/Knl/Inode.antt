-- ===== src/Knl/Inode.antt =====
-- knl/inode.c and the end of knl/namei.c: the inodes of the VFS.
-- The VFS is given by two functions: `Device` reads a block, and `Icache` is `iget_locked`. A module
-- call that makes a `tarfs_io_t` of its own runs by `nested`, which hands on the count of buffers.
use tarfs.Base.{ℕ, ◌/◌, ◌%◌, ◌^◌, Bool, true, false, none, some, [], ◌==◌, if◌then◌else◌}
use Prim.Native.Nat.{bit_and}
use tarfs.Meta.{
  Bytes, PosixHeader, Dinode, Sblock, tarfs_ifmt, tarfs_ifreg, tarfs_ifdir, tarfs_iflnk,
}
use tarfs.Manager.{Block, header, dinode}
use tarfs.Knl.{
  Device, Io, enoent, Run, ok, fail, fault, out_of_fuel, K, pure, ◌>>=◌, lnx_io_init, lnx_bread,
  release, tarfs_get_data_block,
}
use tarfs.Knl.Dir.{find_loop}

-- The tables of operations that `tarfs_read_inode` sets in an inode
pub data Ops : Type 0 where
  file_ops dir_ops symlink_ops no_ops : Ops

-- `struct inode` of the kernel, its fields that the module sets
pub record Inode : Type 0 where
  pub i_ino : ℕ
  pub i_mode : ℕ
  pub i_uid : ℕ
  pub i_gid : ℕ
  pub i_nlink : ℕ
  pub i_size : ℕ
  pub i_atime : ℕ
  pub i_ctime : ℕ
  pub i_mtime : ℕ
  pub i_private : Dinode
  pub ops : Ops

-- What `iget_locked` returns: NULL, an inode that is in the cache, or a new one with `I_NEW`.
pub data Locked : Type 0 where
  null : Locked
  cached : Inode → Locked
  i_new : Locked

abbrev pub Icache : Type 0
Icache = ℕ → Locked

-- struct tarfs_incore_sblock
pub record IncoreSblock : Type 0 where
  pub sb : Sblock
  pub free_dinode : Dinode

unfoldable pub nested {ℓ} : {A : Type ℓ} → (Io → Run A) → K A
nested m io = elim (m (lnx_io_init io.refs)) [
  | ok a io' ↦ ok a (record io { refs = io'.refs })
  | fail e io' ↦ fail e (record io { refs = io'.refs })
  | fault ↦ fault
  | out_of_fuel ↦ out_of_fuel
]

unfoldable pub as_header : Block → K PosixHeader
as_header (header ph) io = ok ph io
as_header _ io = fault

unfoldable pub as_dinode : Block → K Dinode
as_dinode (dinode d) io = ok d io
as_dinode _ io = fault

-- tarfs_follow_link: the buffer stays held, for `tarfs_put_link`.
unfoldable pub tarfs_follow_link : Device → Inode → (refs : ℕ) → Run Bytes
unfolding as_header
tarfs_follow_link dev ip refs =
    (do buf ← lnx_bread dev ip.i_private.di_header; ph ← as_header buf; pure ph.linkname)
      (lnx_io_init refs)

-- tarfs_get_block: the block that `map_bh` is called with
pub tarfs_get_block : Device → Inode → (iblock : ℕ) → (refs : ℕ) → Run ℕ
tarfs_get_block dev inode iblock refs =
    tarfs_get_data_block dev inode.i_private iblock (lnx_io_init refs)

-- S_ISREG, S_ISDIR and S_ISLNK choose the operations.
unfoldable pub ops_of : ℕ → Ops
ops_of mode =
    let fmt = bit_and mode tarfs_ifmt in
    if fmt == tarfs_ifreg
    then file_ops
    else if fmt == tarfs_ifdir
    then dir_ops
    else if fmt == tarfs_iflnk
    then symlink_ops
    else no_ops

-- The inode of the dinode `dp`; `umode_t` has 16 bits, and the times become seconds.
unfoldable pub set_inode : ℕ → Dinode → Inode
set_inode ino dp = record {
  i_ino = ino;
  i_mode = dp.di_mode % 2 ^ 16;
  i_uid = dp.di_uid;
  i_gid = dp.di_gid;
  i_nlink = dp.di_nlink;
  i_size = dp.di_size;
  i_atime = dp.di_atime / 1_000_000;
  i_ctime = dp.di_ctime / 1_000_000;
  i_mtime = dp.di_mtime / 1_000_000;
  i_private = dp;
  ops = ops_of (dp.di_mode % 2 ^ 16);
}

-- tarfs_read_inode. `slab` tells whether `kmem_cache_alloc` gives memory; without it `errdone:` reads
-- an `io` that nothing has set.
unfoldable pub tarfs_read_inode : Device → (slab : Bool) → IncoreSblock → ℕ → K Inode
unfolding as_dinode
tarfs_read_inode dev false i_sb ino io = fault
tarfs_read_inode dev true i_sb ino io = release (
    (do
      blkno ← tarfs_get_data_block dev i_sb.free_dinode ino
      buf ← lnx_bread dev blkno
      dp ← as_dinode buf
      pure (set_inode ino dp))
      io)

-- tarfs_iget. Where `iget_locked` gives NULL, `unlock_new_inode` is called on NULL.
unfoldable pub tarfs_iget : Device → Icache → (slab : Bool) → IncoreSblock → ℕ → K Inode
unfolding nested
tarfs_iget dev icache slab i_sb ino = elim (icache ino) [
  | null ↦ λ io. fault
  | cached ip ↦ pure ip
  | i_new ↦ nested (tarfs_read_inode dev slab i_sb ino)
]

-- __tarfs_lookup, up to `d_splice_alias`
unfoldable pub tarfs_lookup :
    Device
    → Icache
    → (slab : Bool) → IncoreSblock
    → (dir : Inode) → (name : Bytes) (len : ℕ) → (refs : ℕ) → Run Inode
unfolding tarfs_iget
tarfs_lookup dev icache slab i_sb dir name len refs =
    let parentp = dir.i_private in
    release (
      (do
        found ← find_loop dev parentp.di_size name len parentp 0 []
        elim found [ none ↦ λ io. fail enoent io | some ino ↦ tarfs_iget dev icache slab i_sb ino ])
        (lnx_io_init refs))

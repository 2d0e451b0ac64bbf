-- ===== src/Knl/Super.antt =====
-- knl/super.c: the super block of the mounted file system.
use tarfs.Base.{ℕ, zero, suc, Bool, Option, none, some, List, ◌∷◌}
use tarfs.Meta.{
  Dext, Dinode, Sblock, tarblk_none, tarsblock_magic, tar_blocksize, maxnamlen, tarfs_root_ino,
}
use tarfs.Knl.{Device, enomem, Run, ok, fail, fault, out_of_fuel, lnx_io_init}
use tarfs.Knl.Inode.{Inode, Icache, IncoreSblock, tarfs_iget}

-- What the module reads of `struct kstatfs`
pub record Kstatfs : Type 0 where
  pub f_type : ℕ
  pub f_bsize : ℕ
  pub f_blocks : ℕ
  pub f_bfree : ℕ
  pub f_bavail : ℕ
  pub f_files : ℕ
  pub f_ffree : ℕ
  pub f_namelen : ℕ

-- tarfs_statfs
pub tarfs_statfs : IncoreSblock → Kstatfs
tarfs_statfs i_sb = record {
  f_type = tarsblock_magic;
  f_bsize = tar_blocksize;
  f_blocks = i_sb.sb.tarfs_dsize;
  f_bfree = 0;
  f_bavail = 0;
  f_files = i_sb.sb.tarfs_inodes;
  f_ffree = 0;
  f_namelen = maxnamlen;
}

-- struct tarfs_mnt_arg
pub record MntArg : Type 0 where
  pub mnt_sb : Sblock
  pub mnt_dinode : Dinode

-- The super block that is set from the mount's; `tarfs_free` is set from `tarfs_root`.
pub set_sblock : Sblock → Sblock
set_sblock sb = record {
  tarfs_magic = sb.tarfs_magic;
  tarfs_inodes = sb.tarfs_inodes;
  tarfs_dsize = sb.tarfs_dsize;
  tarfs_size = sb.tarfs_size;
  tarfs_fsize = sb.tarfs_fsize;
  tarfs_flist_regdata = sb.tarfs_flist_regdata;
  tarfs_flist_dirdata = sb.tarfs_flist_dirdata;
  tarfs_flist_iexdata = sb.tarfs_flist_iexdata;
  tarfs_flist_ind_dinode = sb.tarfs_flist_ind_dinode;
  tarfs_flist_dinode = sb.tarfs_flist_dinode;
  tarfs_root = sb.tarfs_root;
  tarfs_free = sb.tarfs_root;
  tarfs_flags = sb.tarfs_flags;
  tarfs_maxino = sb.tarfs_maxino;
}

-- The loop that copies the first `n` extents over those that `kmalloc` left; `none` where it leaves
-- the array.
pub copy_extents : ℕ → List Dext → List Dext → Option (List Dext)
copy_extents zero src dst = some dst
copy_extents (suc n) (e ∷ src) (d ∷ dst) = elim (copy_extents n src dst) [
  | none ↦ none
  | some rest ↦ some (e ∷ rest)
]
copy_extents (suc n) _ _ = none

-- The free dinode: the mount's, but for `di_header` and the extents
pub set_free_dinode : Dinode → List Dext → Dinode
set_free_dinode s_dp extents = record s_dp { di_header = tarblk_none; di_direct_extent = extents }

-- tarfs_fill_super: the super block's private data and the root inode. `garbage` is the memory of
-- `kmalloc`, none where it fails.
pub tarfs_fill_super :
    Device
    → Icache
    → (slab : Bool) → (garbage : Option IncoreSblock) → MntArg
    → (refs : ℕ) → Run (IncoreSblock × Inode)
unfolding copy_extents
tarfs_fill_super dev icache slab none arg refs = fail enomem (lnx_io_init refs)
tarfs_fill_super dev icache slab (some garbage) arg refs =
    elim (copy_extents arg.mnt_dinode.di_nextents arg.mnt_dinode.di_direct_extent
      garbage.free_dinode.di_direct_extent) [
        | none ↦ fault
        | some extents ↦
            let i_sb : IncoreSblock = record {
              sb = set_sblock arg.mnt_sb;
              free_dinode = set_free_dinode arg.mnt_dinode extents;
            } in
            elim (tarfs_iget dev icache slab i_sb tarfs_root_ino (lnx_io_init refs)) [
              | ok ip io ↦ ok (i_sb, ip) io
              | fail e io ↦ fail e io
              | fault ↦ fault
              | out_of_fuel ↦ out_of_fuel
            ]
      ]

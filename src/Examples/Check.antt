-- ===== src/Examples/Check.antt =====
-- An image of five blocks with a directory of one entry, as checkTarfs reads it.
use tarfs.Base.{arith, ◌≡◌, refl, if◌then◌else◌, ◌==◌, [], ◌∷◌}
use tarfs.Meta.{Sblock, Direct, Dinode, zero_dinode, tarfs_ifdir, tarfs_root_ino, tarsblock_magic}
use tarfs.Manager.{World, Manager, sblock, dinode, dir_data, ok}
use tarfs.Extent.{get_data_block, find_extent, direct_num}
use tarfs.Manager.{read_data, as_dir}
use tarfs.Directory.{LookupOp, load_entry, tarfs_lookup}
use tarfs.Check.{
  zero_incore, zero_manager, zero_sblock, print_step, readdir_loop, tarfs_readdir, check_tarfs,
}
use tarfs.Check.Listing.{Finds, tarfs_readdir-Finds}
use tarfs.Directory.Slots.{record_len}
use tarfs.Directory.Search.{DirBlocks, no_block, block, first_named, Looks, tarfs_lookup-Looks}
use tarfs.Check.Printed.{tarfs_readdir-join}
use tarfs.Check.ReadOnly.{ReadsOnly, check_tarfs-ReadsOnly}
use tarfs.Knl.Super.{MntArg}
use tarfs.Mount.{read_sblock, read_free, read_root, init, mount_arg}
use tarfs.Mount.Agree.{Holds, mount_arg-Holds}
use tarfs.Examples.{archive}

-- The inodes are the blocks 1 and 2.
abbrev free_inode : Dinode
free_inode = record zero_dinode {
  di_nextents = 1;
  di_direct_extent = record { de_off = 0; de_blkno = 1; de_nblks = 2 } ∷ [];
}

abbrev directory : Dinode
directory = record zero_dinode {
  di_mode = tarfs_ifdir;
  di_size = 512;
  di_nextents = 1;
  di_direct_extent = record { de_off = 0; de_blkno = 3; de_nblks = 1 } ∷ [];
}

abbrev entry : Direct
entry = record { d_ino = 9; d_reclen = 512; d_namelen = 1; d_ftype = 1; d_name = b'f' ∷ [] }

abbrev image_sblock : Sblock
image_sblock = record zero_sblock { tarfs_magic = tarsblock_magic; tarfs_root = 2 }

abbrev image : World
image = record archive {
  size = 5;
  blocks = λ b.
      if b == 0
      then dinode free_inode
      else if b == 2
      then dinode directory
      else if b == 3
      then dir_data (entry ∷ [])
      else sblock image_sblock;
}

abbrev wanted : LookupOp
wanted = record { lo_fname = b'f' ∷ []; lo_namelen = 1; lo_needspace = 20 }

readdir_image : tarfs_readdir directory (zero_manager image) ≡ ok (entry ∷ []) (zero_manager image)
unfolding tarfs_readdir readdir_loop print_step load_entry get_data_block read_data as_dir
    find_extent direct_num
readdir_image = refl

tarfs_readdir-Finds_example :
    Finds (first_named wanted (entry ∷ [])) (tarfs_lookup directory wanted (zero_manager image))
tarfs_readdir-Finds_example =
    tarfs_readdir-Finds directory wanted (zero_manager image) (entry ∷ []) (zero_manager image)
      readdir_image

check_tarfs-ReadsOnly_example : ReadsOnly image (check_tarfs image 1)
check_tarfs-ReadsOnly_example = check_tarfs-ReadsOnly image 1

abbrev image_arg : MntArg
image_arg = record { mnt_sb = image_sblock; mnt_dinode = free_inode }

abbrev mounted : Manager
mounted = record (zero_manager image) {
  m_sb = image_sblock;
  m_free = record (zero_incore 0 0) { i_dinode = free_inode };
  m_root = record (zero_incore tarfs_root_ino tarfs_root_ino) { i_dinode = directory };
}

mount_image : mount_arg image 0 ≡ ok image_arg mounted
unfolding mount_arg init read_sblock read_free read_root
mount_image = refl

mount_arg-Holds_example : Holds image_arg (tarfs.Check.init image)
mount_arg-Holds_example = mount_arg-Holds image 0 image_arg mounted mount_image

directory-block : get_data_block directory 0 (zero_manager image) ≡ ok 3 (zero_manager image)
unfolding get_data_block find_extent direct_num
directory-block = refl

directory-DirBlocks : DirBlocks (zero_manager image) directory 0 ((entry ∷ []) ∷ [])
unfolding record_len
directory-DirBlocks = block directory-block (omega arith) refl refl (omega arith, tt) no_block

tarfs_readdir-join_example :
    tarfs_readdir directory (zero_manager image) ≡ ok (entry ∷ []) (zero_manager image)
tarfs_readdir-join_example =
    tarfs_readdir-join (zero_manager image) directory ((entry ∷ []) ∷ []) (omega arith)
      directory-DirBlocks (omega arith)

tarfs_lookup-Looks_example :
    Looks
      (zero_manager image)
      (first_named wanted (entry ∷ []))
      (tarfs_lookup directory wanted (zero_manager image))
tarfs_lookup-Looks_example =
    tarfs_lookup-Looks (zero_manager image) directory wanted ((entry ∷ []) ∷ []) (omega arith)
      directory-DirBlocks (omega arith)

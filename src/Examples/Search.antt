-- ===== src/Examples/Search.antt =====
-- A directory of one block on a device.
use tarfs.Base.{ℕ, ◌≡◌, refl, some, [], ◌∷◌, replicate, ◌==◌, if◌then◌else◌, arith}
use tarfs.Meta.{Dinode, zero_dext, zero_dinode}
use tarfs.Manager.{contents, dir_data}
use tarfs.Knl.{Device, ok, lnx_io_init, tarfs_get_data_block, release, lnx_bput}
use tarfs.Extent.{find_extent}
use tarfs.Knl.Dir.{find_loop}
use tarfs.Knl.Search.{find_name, DirBlocks, no_block, block, find_loop-find_name}
use tarfs.Directory.Slots.{record_len}
use tarfs.Examples.Inode.{dot, dot_dot}

abbrev pub directory : Dinode
directory = record zero_dinode {
  di_size = 512;
  di_nextents = 1;
  di_direct_extent = record { de_off = 0; de_blkno = 40; de_nblks = 1 } ∷ replicate 16 zero_dext;
}

abbrev pub disk : Device
disk p = some (if p == 40 then dir_data (dot ∷ dot_dot ∷ []) else contents [])

directory-block :
    (refs : ℕ) → tarfs_get_data_block disk directory 0 (lnx_io_init refs) ≡ ok 40 (lnx_io_init refs)
unfolding tarfs_get_data_block find_extent release lnx_bput
directory-block refs = refl

pub directory-DirBlocks : DirBlocks disk directory 0 ((dot ∷ dot_dot ∷ []) ∷ [])
unfolding record_len
directory-DirBlocks = block directory-block refl refl (omega arith, (omega arith, tt)) no_block

find_loop-find_name_example :
    release (find_loop disk 512 (b'.' ∷ b'.' ∷ []) 2 directory 0 [] (lnx_io_init 3))
    ≡ ok (find_name (b'.' ∷ b'.' ∷ []) 2 (dot ∷ dot_dot ∷ [])) (lnx_io_init 3)
find_loop-find_name_example =
    find_loop-find_name disk (b'.' ∷ b'.' ∷ []) 2 directory 3 (omega arith)
      ((dot ∷ dot_dot ∷ []) ∷ []) directory-DirBlocks (omega arith)

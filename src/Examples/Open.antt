-- ===== src/Examples/Open.antt =====
-- A device with one inode, and the directory of `Search` read and looked up in.
use tarfs.Base.{
  ℕ, ◌+◌, ◌*◌, ◌<◌, ◌≡◌, refl, true, none, some, List, [], ◌∷◌, ◌==◌, if◌then◌else◌, replicate,
  arith,
}
use tarfs.Meta.{Dinode, zero_dext, zero_dinode}
use tarfs.Manager.{Manager, dinode, contents}
use tarfs.Extent.Spec.{lookup}
use tarfs.Extent.Chain.{Holds, direct}
use tarfs.Directory.Slots.{record_len}
use tarfs.Knl.{Io, ok, lnx_io_init}
use tarfs.Knl.Dir.{FileTypes, Emit, Reader, tarfs_iterate}
use tarfs.Knl.Inode.{
  Inode, Icache, cached, i_new, IncoreSblock, set_inode, tarfs_iget, tarfs_lookup,
}
use tarfs.Knl.Search.{find_name}
use tarfs.Knl.Readdir.{tarfs_readdir, filldir_of, forget, tarfs_readdir-tarfs_iterate}
use tarfs.Knl.Open.{opened, IsInodeOf, Gives, tarfs_iget-IsInodeOf, tarfs_lookup-find_name}
use tarfs.Knl.Listing.{listing, tarfs_iterate-listing}
use tarfs.Examples.{start, archive, blank_sblock}
use tarfs.Examples.Inode.{dot, dot_dot}
use tarfs.Examples.Search.{directory, disk, directory-DirBlocks}

-- Block 2 of the device is the inode of `directory`.
abbrev with_inode : Manager
with_inode = record start {
  world = record archive { blocks = λ b. if b == 2 then dinode directory else contents [] };
}

abbrev inodes : Dinode
inodes = record zero_dinode {
  di_nextents = 1;
  di_direct_extent = record { de_off = 0; de_blkno = 1; de_nblks = 3 } ∷ replicate 16 zero_dext;
}

inodes-Holds : Holds with_inode inodes [] (record { de_off = 0; de_blkno = 1; de_nblks = 3 } ∷ [])
inodes-Holds = record {
  array = refl;
  fits = ((omega arith, omega arith), tt);
  inside = tt;
  unique = tt;
  listed = direct (omega arith) refl;
}

abbrev mounted : IncoreSblock
mounted = record { sb = blank_sblock; free_dinode = inodes }

abbrev nothing_cached : Icache
nothing_cached ino = i_new

abbrev dir_inode : Inode
dir_inode = set_inode 1 directory

in_map : lookup (record { de_off = 0; de_blkno = 1; de_nblks = 3 } ∷ []) 1 ≡ some 2
unfolding lookup
in_map = refl

tarfs_iget-IsInodeOf_example : Gives (IsInodeOf 1 directory) (lnx_io_init 5) (
    tarfs_iget
      (λ p. some (with_inode.world.blocks p))
      nothing_cached
      true
      mounted
      1
      (lnx_io_init 5))
tarfs_iget-IsInodeOf_example =
    tarfs_iget-IsInodeOf with_inode (λ p. some (with_inode.world.blocks p)) nothing_cached mounted 1
      2 (lnx_io_init 5) (λ p h. refl) inodes-Holds refl in_map (omega arith) refl

all_cached :
    (ino : ℕ) (io : Io)
    → tarfs_iget disk (λ i. cached dir_inode) true mounted ino io ≡ ok dir_inode io
unfolding tarfs_iget
all_cached ino io = refl

tarfs_lookup-find_name_example :
    tarfs_lookup disk (λ i. cached dir_inode) true mounted dir_inode (b'.' ∷ b'.' ∷ []) 2 0
    ≡ opened (λ i. dir_inode) (find_name (b'.' ∷ b'.' ∷ []) 2 (dot ∷ dot_dot ∷ [])) 0
unfolding set_inode
tarfs_lookup-find_name_example =
    tarfs_lookup-find_name disk (λ i. cached dir_inode) true mounted dir_inode (b'.' ∷ b'.' ∷ []) 2
      0 ((dot ∷ dot_dot ∷ []) ∷ []) (λ i. dir_inode) (omega arith) directory-DirBlocks (omega arith)
      λ ino e io. all_cached ino io

abbrev file_types : FileTypes
file_types = record { dt_unknown = 0; dt_dir = 4; dt_reg = 8; dt_lnk = 10 }

-- the numbers of the entries, the last one first
abbrev collect : Emit (List ℕ)
collect inos dp type = some (dp.d_ino ∷ inos)

abbrev at_dot_dot : Reader disk file_types collect
at_dot_dot = record { pos = 16; ctx = [] }

one-entry_full : 16 ≡ 512 * 0 + record_len (dot ∷ [])
unfolding record_len
one-entry_full = refl

small-record_len : record_len (dot ∷ []) < 512
unfolding record_len
small-record_len = omega arith

tarfs_iterate-listing_example :
    tarfs_iterate disk file_types collect directory at_dot_dot 0
    ≡ ok (listing disk file_types collect (dot_dot ∷ []) at_dot_dot) (lnx_io_init 0)
tarfs_iterate-listing_example =
    tarfs_iterate-listing disk file_types collect directory 0 (omega arith) 0
      ((dot ∷ dot_dot ∷ []) ∷ []) (dot ∷ []) (dot_dot ∷ []) at_dot_dot directory-DirBlocks
      (omega arith) refl one-entry_full small-record_len

-- A callback that takes one entry and refuses the next
abbrev one_only : Emit (List ℕ)
one_only [] dp type = some (dp.d_ino ∷ [])
one_only (ino ∷ inos) dp type = none

abbrev einval : ℕ
einval = 22

tarfs_readdir-tarfs_iterate_example :
    forget disk file_types one_only einval (
      tarfs_readdir disk file_types
        (filldir_of einval one_only)
        directory
        (record { f_pos = 0; dirent = [] })
        0)
    ≡ tarfs_iterate disk file_types one_only directory (record { pos = 0; ctx = [] }) 0
tarfs_readdir-tarfs_iterate_example =
    tarfs_readdir-tarfs_iterate disk file_types one_only einval directory 0 [] 0

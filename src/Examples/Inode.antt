-- ===== src/Examples/Inode.antt =====
-- A new directory, and a new entry in the first block of a directory.
use tarfs.Base.{◌≡◌, false, some, ◌%◌, refl, true, [], ◌∷◌, arith}
use tarfs.Meta.{tarfs_ifdir, dirent_size, direct_size, Direct}
use tarfs.Manager.{Incore, dinode}
use tarfs.Manager.Ensures.{Ensures}
use tarfs.Inode.{alloc_dinode}
use tarfs.Inode.Fields.{alloc_dinode-di_header}
use tarfs.Directory.{LookupOp, has_space, at_offset, fill_slot}
use tarfs.Directory.Slots.{record_len, Fitted, HasFile, PlacedAs, fill_slot-HasFile}
use tarfs.Header.{strlen}
use tarfs.Directory.{Slot}
use tarfs.Maker.{Inode, Maker}
use tarfs.Maker.Dir.{wanted, fill_entry, count_entry, add_dir_entry}
use tarfs.Maker.Main.{new_maker}
use tarfs.Maker.Slots.{as_incore, Agrees, fill_entry-fill_slot, Adds, add_dir_entry-HasFile}
use tarfs.Examples.{blank_inode, start}

alloc_dinode-di_header_example :
    Ensures
      (λ dp m'. (dp.i_dinode.di_header ≡ 0) × (m'.world.blocks dp.i_blkno ≡ dinode dp.i_dinode))
      (λ m'. Unit {0})
      (alloc_dinode blank_inode tarfs_ifdir start)
alloc_dinode-di_header_example = alloc_dinode-di_header blank_inode tarfs_ifdir start

abbrev pub dot : Direct
dot = record { d_ino = 1; d_reclen = 16; d_namelen = 1; d_ftype = 2; d_name = b'.' ∷ [] }

abbrev pub dot_dot : Direct
dot_dot = record {
  d_ino = 1;
  d_reclen = 496;
  d_namelen = 2;
  d_ftype = 2;
  d_name = b'.' ∷ b'.' ∷ [];
}

abbrev new_file : Incore
new_file = record blank_inode { i_ino = 2 }

abbrev looking : LookupOp
looking = record { lo_fname = b'a' ∷ []; lo_namelen = 1; lo_needspace = 16 }

two-entries_full : record_len (dot ∷ dot_dot ∷ []) ≡ 512
unfolding record_len
two-entries_full = refl

two-entries-Fitted : Fitted dot × (Fitted dot_dot × Unit {0})
unfolding Fitted dirent_size
two-entries-Fitted = (omega arith, (omega arith, tt))

looking-need : 16 ≡ dirent_size 1
unfolding dirent_size
looking-need = refl

looking-space : has_space looking dot_dot ≡ true
unfolding has_space direct_size
looking-space = refl

fill_slot-HasFile_example : PlacedAs (HasFile new_file (b'a' ∷ []) 1 (dot ∷ []) dot_dot []) (
    at_offset
      (fill_slot new_file (b'a' ∷ []) 1 (record_len (dot ∷ [])))
      (record_len (dot ∷ []))
      (dot ∷ dot_dot ∷ []))
fill_slot-HasFile_example =
    fill_slot-HasFile new_file (b'a' ∷ []) 1 looking (dot ∷ []) dot_dot [] two-entries_full
      two-entries-Fitted (omega arith) looking-need looking-space (omega arith)

abbrev cxx_start : Maker
cxx_start = new_maker start.world 0 false

abbrev cxx_dir : Inode
cxx_dir = record cxx_start.root { ino = 1; blkno = 2 }

abbrev cxx_file : Inode
cxx_file = record cxx_start.root { ino = 2; ftype = 1 }

-- The entry `..` at byte 16 of block 1
abbrev second : Slot
second = record { lo_slotoff = 528; lo_slotblkno = 1; lo_slotbuf = dot ∷ dot_dot ∷ [] }

second-offset : second.lo_slotoff % 512 ≡ record_len (dot ∷ [])
unfolding record_len
second-offset = refl

wanted-space : has_space (wanted (b'a' ∷ [])) dot_dot ≡ true
unfolding has_space direct_size dirent_size strlen
wanted-space = refl

strlen-small : strlen (b'a' ∷ []) ≡ 1
unfolding strlen
strlen-small = refl

fill_entry-fill_slot_example :
    Agrees (at_offset (fill_entry cxx_file (b'a' ∷ [])) 16 (dot ∷ dot_dot ∷ [])) (
      at_offset
        (fill_slot (as_incore cxx_file) (b'a' ∷ []) (strlen (b'a' ∷ [])) 16)
        16
        (dot ∷ dot_dot ∷ []))
fill_entry-fill_slot_example = fill_entry-fill_slot cxx_file (b'a' ∷ []) 16 16 (dot ∷ dot_dot ∷ [])

add_dir_entry-HasFile_example :
    Adds
      (count_entry cxx_dir cxx_file)
      1
      (HasFile (as_incore cxx_file) (b'a' ∷ []) (strlen (b'a' ∷ [])) (dot ∷ []) dot_dot [])
      (add_dir_entry cxx_dir (b'a' ∷ []) (some second) cxx_file cxx_start)
add_dir_entry-HasFile_example =
    add_dir_entry-HasFile cxx_dir cxx_file (b'a' ∷ []) second cxx_start (dot ∷ []) dot_dot [] refl
      second-offset (omega arith) two-entries_full two-entries-Fitted (omega (arith, strlen-small))
      wanted-space (omega arith)

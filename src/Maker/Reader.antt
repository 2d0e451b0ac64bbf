-- ===== src/Maker/Reader.antt =====
-- cmd_c++/fsreader.cc, the class FsIO of tarfs.h and `Dir::printDirEntry`. An FsReader is a `Maker` without
-- space managers, whose `orgblks` is the size of the file: so the rollback of `read_block` is the bare exit
-- of FsIO::readBlock. FsReader::writeBlock does nothing, and with it what `InodeFactory::fin` does at the end.
use tarfs.Base.{
  ℕ, zero, suc, ◌+◌, ◌-◌, ◌%◌, ◌^◌, Bool, true, false, Option, none, some, List, [], ◌∷◌, ltb, ◌==◌,
  if◌then◌else◌, add64,
}
use tarfs.Meta.{Sblock, Dinode, Direct, tar_blocksize, tarsblock_magic, tarfs_root_ino, tarfs_ifdir}
use tarfs.Manager.{Block, sblock, World}
use tarfs.Directory.{Cursor}
use tarfs.Check.{zero_sblock}
use tarfs.Knl.Super.{MntArg}
use tarfs.Maker.{
  Inode, Maker, Run, ok, fault, out_of_fuel, M, pure, get, put, ◌>>=◌, ◌>>◌, read_block,
}
use tarfs.Maker.Files.{load_inode}
use tarfs.Maker.Factory.{get_inode}
use tarfs.Maker.Dir.{start, load_direct}
use tarfs.Maker.Main.{new_maker}

-- `new FsReader`, and the size of the opened file
abbrev pub new_reader : World → (unset : Bool) → Maker
new_reader w unset = record (new_maker w 0 unset) { sb = zero_sblock }

-- InodeFactory::load
unfoldable pub load : ℕ → M (Unit {0})
load free_inode_blkno = do
  inode ← load_inode 0 0 free_inode_blkno
  s ← get
  put (record s { free_inode = inode })

-- FsReader::create behind the read of the last block; `false` is NULL.
unfoldable pub load_sblock : Block → M Bool
unfolding load
load_sblock (sblock sb) =
    if sb.tarfs_magic == tarsblock_magic
    then (do
      s ← get
      put (record s { sb = sb })
      load sb.tarfs_free
      root ← get_inode tarfs_root_ino tarfs_root_ino
      s ← get
      put (record s { root = root })
      pure true)
    else pure false
load_sblock _ = pure false

-- FsReader::create
unfoldable pub create_reader : World → (unset : Bool) → Run Bool
unfolding load_sblock
create_reader w unset = (do buf ← read_block (w.size - 1); load_sblock buf) (new_reader w unset)

-- FsIO::getSblock; its callers read the copy, also where `malloc` gave none.
unfoldable pub get_sblock : M Sblock
get_sblock s = if ltb s.world.memory tar_blocksize then fault else ok s.sb s

-- FsReader::getFreeDinode
unfoldable pub get_free_dinode : M Dinode
get_free_dinode s = if ltb s.world.memory tar_blocksize then fault else ok s.free_inode.dinode s

-- main of tarfsmount.cc, up to mount(2): what it hands to that; `none` is a return with 1
unfoldable pub mount_arg : World → (unset : Bool) → Run (Option MntArg)
unfolding create_reader get_sblock get_free_dinode
mount_arg w unset = tarfs.Maker.and_then (create_reader w unset) λ created.
    if created
    then (do
      sb ← get_sblock
      d ← get_free_dinode
      pure (some (record { mnt_sb = sb; mnt_dinode = d })))
    else pure none

-- truncate(2), which cannot make the file larger than the device allows; `true` where it succeeds
unfoldable pub truncate : (blks : ℕ) → M Bool
truncate blks s =
    if ltb s.world.capacity blks
    then ok false s
    else ok true (record s { world = record s.world { size = blks } })

-- What main of detachtarfs.cc does with the FsReader; `false` is a return with 1.
unfoldable pub cut_off : M Bool
unfolding get_sblock truncate
cut_off = do s ← get; sb ← get_sblock; truncate ((s.blks + 2 ^ 64 - sb.tarfs_size) % 2 ^ 64)

-- main of detachtarfs.cc
unfoldable pub detach_tarfs : World → (unset : Bool) → Run Bool
unfolding create_reader cut_off
detach_tarfs w unset =
    tarfs.Maker.and_then (create_reader w unset) λ created. if created then cut_off else pure false

-- one round of printDirEntry at the entry `dp`, with the rest of the loop
unfoldable pub print_at : ℕ → Cursor → (ℕ → Cursor → M (List Direct)) → M (List Direct)
print_at off c rest = elim c.dp [
  | [] ↦ λ s. fault
  | dp ∷ next ↦ do es ← rest (add64 off dp.d_reclen) (record c { dp = next }); pure (dp ∷ es)
]

-- `while (off < endoff)`, with a round of fuel for each byte of the directory
unfoldable pub print_from : ℕ → Inode → ℕ → Cursor → M (List Direct)
unfolding print_at
print_from zero i off c = if ltb off i.dinode.di_size then (λ s. out_of_fuel) else pure []
print_from (suc k) i off c =
    let rest = print_from k i in
    if ltb off i.dinode.di_size
    then (do c' ← load_direct i off c; print_at off c' rest)
    else pure []

-- Dir::printDirEntry: the entries that it prints
unfoldable pub print_dir_entry : Inode → M (List Direct)
unfolding print_from
print_dir_entry i = print_from i.dinode.di_size i 0 start

unfoldable pub print_inode : Inode → M (Option (Inode × Option (List Direct)))
unfolding print_dir_entry
print_inode inode =
    if inode.ftype == tarfs_ifdir
    then (do es ← print_dir_entry inode; pure (some (inode, some es)))
    else pure (some (inode, none))

-- main of tarfscheck.cc: the inode, and the entries if it is a directory; `none` is a return with 1
unfoldable pub check_tarfs :
    World → (ino : ℕ) → (unset : Bool) → Run (Option (Inode × Option (List Direct)))
unfolding create_reader print_inode
check_tarfs w ino unset = tarfs.Maker.and_then (create_reader w unset) λ created.
    if created then (do inode ← get_inode ino (2 ^ 64 - 1); print_inode inode) else pure none

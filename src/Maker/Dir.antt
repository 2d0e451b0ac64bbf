-- ===== src/Maker/Dir.antt =====
-- cmd_c++/dir.cc: the class Dir. A block of a directory is the list of its entries, and a pointer to an
-- entry the list of the entries from there on.
use tarfs.Base.{
  ℕ, zero, suc, ◌+◌, ◌-◌, ◌/◌, ◌%◌, ◌^◌, true, Option, none, some, List, [], ◌∷◌, ltb, ◌==◌,
  if◌then◌else◌, add64, take,
}
use tarfs.Meta.{Bytes, tar_blocksize, Direct, tarblk_none, tarfs_ifdir, dirent_size}
use tarfs.Manager.{dir_data}
use tarfs.Header.{strlen}
use tarfs.Directory.{
  LookupOp, Slot, matches, has_space, Placed, placed, assert_failed, misplaced, at_offset, Cursor,
}
use tarfs.Maker.{Inode, fault, out_of_fuel, M, pure, ◌>>=◌, ◌>>◌, read_block, write_block, as_dir}
use tarfs.Maker.Space.{Manages, alloc_block}
use tarfs.Maker.Files.{File, get_dir_ftype}
use tarfs.Maker.Extents.{get_block, known_block, ins_block}
use tarfs.Maker.Factory.{alloc_inode, alloc_file, get_inode}

-- The block at `off`, where a block begins. Where it holds no entries the source goes on with its bytes; the
-- model ends there.
unfoldable pub load_direct : Inode → ℕ → Cursor → M Cursor
load_direct i off c =
    if off % tar_blocksize == 0
    then (do
      found ← get_block i (off / tar_blocksize)
      dirblkno ← known_block found
      buf ← read_block dirblkno
      es ← as_dir buf
      pure (record { dirblkno = dirblkno; dirbuf = es; dp = es }))
    else pure c

-- The name as it is looked for
abbrev pub wanted : Bytes → LookupOp
wanted name = record {
  lo_fname = name;
  lo_namelen = strlen name;
  lo_needspace = dirent_size (strlen name);
}

abbrev pub start : Cursor
start = record { dirblkno = 0; dirbuf = []; dp = [] }

-- the body of the loop of Dir::lookup
unfoldable pub lookup_at : Bytes → ℕ → Cursor → (ℕ → Cursor → M (Option ℕ)) → M (Option ℕ)
lookup_at name off c rest = elim c.dp [
  | [] ↦ λ s. fault
  | dp ∷ next ↦
      if matches (wanted name) dp
      then pure (some dp.d_ino)
      else rest (add64 off dp.d_reclen) (record c { dp = next })
]

-- `while (off < endoff)` of Dir::lookup, with a round of fuel for each byte of the directory
unfoldable pub lookup_from : ℕ → Bytes → Inode → ℕ → Cursor → M (Option ℕ)
unfolding load_direct lookup_at
lookup_from zero name i off c = if ltb off i.dinode.di_size then (λ s. out_of_fuel) else pure none
lookup_from (suc k) name i off c =
    let rest = lookup_from k name i in
    if ltb off i.dinode.di_size
    then (do c' ← load_direct i off c; lookup_at name off c' rest)
    else pure none

-- Dir::lookup
unfoldable pub lookup : Inode → Bytes → M (Option Inode)
unfolding lookup_from
lookup i name = do
  found ← lookup_from i.dinode.di_size name i 0 start
  elim found [ none ↦ pure none | some ino ↦ do inode ← get_inode ino i.ino; pure (some inode) ]

-- the body of the loop of Dir::searchFreeSpace
unfoldable pub search_at : Bytes → ℕ → Cursor → (ℕ → Cursor → M (Option Slot)) → M (Option Slot)
search_at name off c rest = elim c.dp [
  | [] ↦ λ s. fault
  | dp ∷ next ↦
      if has_space (wanted name) dp
      then pure
          (some (record { lo_slotoff = off; lo_slotblkno = c.dirblkno; lo_slotbuf = c.dirbuf }))
      else rest (add64 off dp.d_reclen) (record c { dp = next })
]

unfoldable pub search_free_space_from : ℕ → Bytes → Inode → ℕ → Cursor → M (Option Slot)
unfolding load_direct search_at
search_free_space_from zero name i off c =
    if ltb off i.dinode.di_size then (λ s. out_of_fuel) else pure none
search_free_space_from (suc k) name i off c =
    let rest = search_free_space_from k name i in
    if ltb off i.dinode.di_size
    then (do c' ← load_direct i off c; search_at name off c' rest)
    else pure none

-- Dir::searchFreeSpace
unfoldable pub search_free_space : Inode → Bytes → M (Option Slot)
unfolding search_free_space_from
search_free_space i name = search_free_space_from i.dinode.di_size name i 0 start

-- The entry of the inode under the name; `d_reclen` and `d_namelen` are `uint16_t`.
abbrev pub entry_of : Inode → Bytes → (reclen : ℕ) → Direct
entry_of inode name reclen = record {
  d_ino = inode.ino;
  d_reclen = reclen % 2 ^ 16;
  d_namelen = strlen name % 2 ^ 16;
  d_ftype = get_dir_ftype inode;
  d_name = take (strlen name) name;
}

-- The slot takes the entry: an unused one becomes it, one in use is cut to the size that it needs.
unfoldable pub fill_entry : Inode → Bytes → Direct → List Direct → Placed
fill_entry inode name direct es =
    if direct.d_ino == tarblk_none
    then placed (entry_of inode name direct.d_reclen ∷ es)
    else placed (
        record direct { d_reclen = dirent_size direct.d_namelen % 2 ^ 16 }
        ∷ entry_of inode name (direct.d_reclen + 2 ^ 17 - dirent_size direct.d_namelen)
        ∷ es)

-- `existing entry` of addDirEntry
unfoldable pub add_to_slot : Inode → Bytes → Slot → Inode → M Inode
unfolding fill_entry
add_to_slot i name slot inode =
    let inx = slot.lo_slotoff % tar_blocksize in
    elim (at_offset (fill_entry inode name) inx slot.lo_slotbuf) [
      | misplaced ↦ λ s. fault
      | assert_failed ↦ λ s. fault
      | placed es ↦ do write_block (dir_data es ∷ []) slot.lo_slotblkno; pure i
    ]

-- `get new entry` of addDirEntry
unfoldable pub add_new_block : Inode → Bytes → Inode → M Inode
add_new_block i name inode = do
  blkno ← alloc_block Manages.dir_data
  buf ← read_block blkno
  i ← ins_block i (record { de_off = i.dinode.di_blocks; de_blkno = blkno; de_nblks = 1 })
  write_block (dir_data (entry_of inode name tar_blocksize ∷ []) ∷ []) blkno
  pure (record i {
    dinode = record i.dinode {
      di_blocks = add64 i.dinode.di_blocks 1;
      di_size = add64 i.dinode.di_size tar_blocksize;
    };
  })

-- what addDirEntry sets in the directory before it looks at the slot
abbrev pub count_entry : Inode → Inode → Inode
count_entry i inode =
    let d = i.dinode in
    record i {
      is_mod = true;
      dinode =
          if inode.ftype == tarfs_ifdir
          then record d { di_nlink = (d.di_nlink + 1) % 2 ^ 32 }
          else d;
    }

-- Dir::addDirEntry: the directory after the call
unfoldable pub add_dir_entry : Inode → Bytes → Option Slot → Inode → M Inode
unfolding add_to_slot add_new_block
add_dir_entry i name (some slot) inode = add_to_slot (count_entry i inode) name slot inode
add_dir_entry i name none inode = add_new_block (count_entry i inode) name inode

-- Dir::mkdir: the directory and the new one
unfoldable pub mkdir : Inode → Bytes → M (Inode × Inode)
mkdir i name = do
  dir ← alloc_inode i.ino tarfs_ifdir
  slot ← search_free_space i name
  i ← add_dir_entry i name slot dir
  pure (i, dir)

-- Dir::create: the directory and the new file
unfoldable pub create : Inode → Bytes → File → M (Inode × Inode)
create i name file = do
  inode ← alloc_file i.ino file
  slot ← search_free_space i name
  i ← add_dir_entry i name slot inode
  pure (i, inode)

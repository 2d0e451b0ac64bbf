-- ===== src/Directory.antt =====
-- cmd/tarfs_common.c: directories, `tarfs_lookup` and `tarfs_create`. A block of a directory is the
-- list of its entries; an entry begins where the `d_reclen` of the one before it ends. A pointer to an
-- entry is the list of the entries from there on.
pub mod Slots
pub mod Names
pub mod Archive
pub mod Search
use Prim.Native.Nat.{bit_and}
use tarfs.Base.{
  ℕ, zero, suc, ◌+◌, ◌-◌, ◌/◌, ◌%◌, ◌^◌, Bool, true, false, Option, none, some, List, [], ◌∷◌, ltb,
  leb, ◌==◌, ◌&&◌, not, if◌then◌else◌, add64, take,
}
use tarfs.Meta.{
  Bytes, tar_blocksize, PosixHeader, Direct, Dinode, tarblk_none, tarfs_ifmt, tarfs_ifdir,
  ftype_dinode2dir, dirent_size, direct_size,
}
use tarfs.Manager.{
  dinode, dir_data, Incore, exited, fault, out_of_fuel, M, pure, ◌>>=◌, ◌>>◌, write_data, read_data,
  as_dir,
}
use tarfs.Alloc.{alloc_data, get_free_dirdata}
use tarfs.Extent.{get_data_block, insert_data_extent}
use tarfs.Header.{get_ftype, strlen}
use tarfs.Inode.{alloc_dinode, get_dinode}

-- !strncmp(a, b, n)
unfoldable pub strncmp_eq : ℕ → Bytes → Bytes → Bool
strncmp_eq zero a b = true
strncmp_eq (suc n) [] [] = true
strncmp_eq (suc n) [] (d ∷ b) = d == 0
strncmp_eq (suc n) (c ∷ a) [] = c == 0
strncmp_eq (suc n) (c ∷ a) (d ∷ b) =
    if c == d then (if c == 0 then true else strncmp_eq n a b) else false

-- `lo_slotoff`, `lo_slotblkno` and `lo_slotbuf`, once a slot was found
pub record Slot : Type 0 where
  pub lo_slotoff : ℕ
  pub lo_slotblkno : ℕ
  pub lo_slotbuf : List Direct

-- `struct lookup_op`, the outputs aside
pub record LookupOp : Type 0 where
  pub lo_fname : Bytes
  pub lo_namelen : ℕ
  pub lo_needspace : ℕ

-- EEXIST with `lo_found`, or ENOENT with the first slot that has room
pub data Looked : Type 0 where
  found : ℕ → Looked
  absent : Option Slot → Looked

-- The entry is the one that is looked for.
unfoldable pub matches : LookupOp → Direct → Bool
unfolding strncmp_eq
matches op dp =
    not (dp.d_ino == tarblk_none)
    && dp.d_namelen == op.lo_namelen
    && strncmp_eq op.lo_namelen dp.d_name op.lo_fname

-- `freesize`; where it is negative in the source it is 0 here, and the test `freesize > 0` fails alike.
unfoldable pub free_size : Direct → ℕ
free_size dp = if dp.d_ino == tarblk_none then dp.d_reclen else dp.d_reclen - direct_size dp

unfoldable pub has_space : LookupOp → Direct → Bool
unfolding free_size
has_space op dp = ltb 0 (free_size dp) && leb op.lo_needspace (free_size dp)

-- the free space check at an entry
unfoldable pub note_slot :
    LookupOp → (off dirblkno : ℕ) → (dirbuf : List Direct) → Direct → Option Slot → Option Slot
unfolding has_space
note_slot op off dirblkno dirbuf dp (some s) = some s
note_slot op off dirblkno dirbuf dp none =
    if has_space op dp
    then some (record { lo_slotoff = off; lo_slotblkno = dirblkno; lo_slotbuf = dirbuf })
    else none

-- The variables of the loop: the block in `dirbuf`, its number, and the entries from `dp` on.
pub record Cursor : Type 0 where
  pub dirblkno : ℕ
  pub dirbuf : List Direct
  pub dp : List Direct

-- if ((off & (TAR_BLOCKSIZE -1)) == 0) { … }. Where the block holds no entries the source goes on with its
-- bytes; the model ends there.
unfoldable pub load_entry : Dinode → ℕ → Cursor → M Cursor
load_entry parentp off c =
    if off % tar_blocksize == 0
    then (do
      dirblkno ← get_data_block parentp (off / tar_blocksize)
      buf ← read_data dirblkno
      es ← as_dir buf
      pure (record { dirblkno = dirblkno; dirbuf = es; dp = es }))
    else pure c

-- The body of the loop at the entry `dp`, with the rest of the loop.
unfoldable pub lookup_step :
    LookupOp → ℕ → Cursor → Option Slot → (ℕ → Cursor → Option Slot → M Looked) → M Looked
unfolding matches note_slot
lookup_step op off c slot rest = elim c.dp [
  | [] ↦ λ m. fault
  | dp ∷ next ↦
      if matches op dp
      then pure (found dp.d_ino)
      else rest (add64 off dp.d_reclen) (record c { dp = next })
          (note_slot op off c.dirblkno c.dirbuf dp slot)
]

-- `while (off < endoff)`, with a round of fuel for each byte of the directory: an entry has
-- `d_reclen > 0`.
unfoldable pub lookup_loop : ℕ → LookupOp → Dinode → ℕ → Cursor → Option Slot → M Looked
unfolding load_entry lookup_step
lookup_loop zero op parentp off c slot =
    if ltb off parentp.di_size then (λ m. out_of_fuel) else pure (absent slot)
lookup_loop (suc k) op parentp off c slot =
    let rest = lookup_loop k op parentp in
    if ltb off parentp.di_size
    then (do c' ← load_entry parentp off c; lookup_step op off c' slot rest)
    else pure (absent slot)

-- tarfs_lookup
unfoldable pub tarfs_lookup : Dinode → LookupOp → M Looked
tarfs_lookup parentp op =
    lookup_loop parentp.di_size op parentp 0 (record { dirblkno = 0; dirbuf = []; dp = [] }) none

-- The entry for the new file; `d_reclen` and `d_namelen` are `uint16_t`.
abbrev pub new_entry : Incore → Bytes → (namelen reclen : ℕ) → Direct
new_entry icp fname namelen reclen = record {
  d_ino = icp.i_ino;
  d_reclen = reclen % 2 ^ 16;
  d_namelen = namelen % 2 ^ 16;
  d_ftype = ftype_dinode2dir icp.i_dinode.di_mode;
  d_name = take namelen fname;
}

-- The block with the new entry in it, the failed ASSERT, or no entry at the offset
pub data Placed : Type 0 where
  placed : List Direct → Placed
  assert_failed misplaced : Placed

-- The slot `dp` at byte `inx` of its block, with the entries `es` behind it, takes the new entry: an
-- unused one becomes it, one in use is cut to the size that it needs.
unfoldable pub fill_slot : Incore → Bytes → ℕ → ℕ → Direct → List Direct → Placed
fill_slot icp fname namelen inx dp es =
    let size = dirent_size dp.d_namelen % 2 ^ 16 in
    let ep = new_entry icp fname namelen (dp.d_reclen + 2 ^ 17 - dirent_size dp.d_namelen) in
    if dp.d_ino == tarblk_none
    then placed (new_entry icp fname namelen dp.d_reclen ∷ es)
    else if leb (ep.d_reclen + inx + size) tar_blocksize
    then placed (record dp { d_reclen = size } ∷ ep ∷ es)
    else assert_failed

abbrev pub place_behind : Direct → Placed → Placed
place_behind dp (placed es) = placed (dp ∷ es)
place_behind dp assert_failed = assert_failed
place_behind dp misplaced = misplaced

-- `dp = &op.lo_slotbuf[inx]`: `left` bytes lie between these entries and the slot.
unfoldable pub at_offset : (Direct → List Direct → Placed) → (left : ℕ) → List Direct → Placed
at_offset fill left [] = misplaced
at_offset fill left (dp ∷ es) =
    let rest = at_offset fill (left - dp.d_reclen) es in
    if left == 0
    then fill dp es
    else if ltb left dp.d_reclen
    then misplaced
    else place_behind dp rest

-- if (op.lo_slotoff != TARBLK_NONE) { … }
unfoldable pub use_slot : Incore → Incore → Bytes → ℕ → Slot → M Incore
unfolding at_offset fill_slot
use_slot parentp icp fname namelen slot =
    let inx = slot.lo_slotoff % tar_blocksize in
    elim (at_offset (fill_slot icp fname namelen inx) inx slot.lo_slotbuf) [
      | misplaced ↦ λ m. fault
      | assert_failed ↦ exited
      | placed es ↦ do
        write_data (dir_data es ∷ []) slot.lo_slotblkno
        write_data (dinode parentp.i_dinode ∷ []) parentp.i_blkno
        pure parentp
    ]

-- `// get new entry` of tarfs_create
unfoldable pub add_dir_block : Incore → Incore → Bytes → ℕ → M Incore
add_dir_block parentp icp fname namelen = do
  (buf, blkno) ← alloc_data get_free_dirdata
  d ←
      insert_data_extent parentp.i_dinode
        (record { de_off = parentp.i_dinode.di_blocks; de_blkno = blkno; de_nblks = 1 })
  let d' = record d { di_blocks = add64 d.di_blocks 1; di_size = add64 d.di_size tar_blocksize }
  write_data (dir_data (new_entry icp fname namelen tar_blocksize ∷ []) ∷ []) blkno
  write_data (dinode d' ∷ []) parentp.i_blkno
  pure (record parentp { i_dinode = d' })

-- A new directory counts as a link to its parent.
abbrev pub link_parent : Incore → Incore → Incore
link_parent icp parentp =
    if bit_and icp.i_dinode.di_mode tarfs_ifmt == tarfs_ifdir
    then record parentp {
      i_dinode = record parentp.i_dinode { di_nlink = (parentp.i_dinode.di_nlink + 1) % 2 ^ 32 };
    }
    else parentp

abbrev pub create_type : Option PosixHeader → ℕ
create_type none = tarfs_ifdir
create_type (some ph) = get_ftype ph.typeflag

-- ENOENT: the new file, and its entry in the parent.
unfoldable pub create_absent : Incore → Incore → Bytes → ℕ → Option Slot → M (Incore × Incore)
create_absent parentp icp fname namelen slot = do
  icp ← alloc_dinode icp (create_type icp.i_ph)
  let parentp = link_parent icp parentp
  parentp ← elim slot [
    | some s ↦ use_slot parentp icp fname namelen s
    | none ↦ add_dir_block parentp icp fname namelen
  ]
  pure (parentp, icp)

unfoldable pub create_looked : Incore → Incore → Bytes → ℕ → Looked → M (Incore × Incore)
create_looked parentp icp fname namelen (found ino) = do
  icp ← get_dinode (record icp { i_ino = ino })
  pure (parentp, icp)
create_looked parentp icp fname namelen (absent slot) = create_absent parentp icp fname namelen slot

-- tarfs_create: the parent and the file after the call.
unfoldable pub tarfs_create : Incore → Bytes → Incore → M (Incore × Incore)
tarfs_create parentp fname icp = do
  let namelen = strlen fname
  looked ←
      tarfs_lookup parentp.i_dinode
        (record { lo_fname = fname; lo_namelen = namelen; lo_needspace = dirent_size namelen })
  create_looked parentp icp fname namelen looked

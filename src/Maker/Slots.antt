-- ===== src/Maker/Slots.antt =====
-- `Dir::addDirEntry` of the C++ version puts a new entry where `tarfs_create` of the C version puts it.
use tarfs.Base.{
  ℕ, ◌+◌, ◌-◌, ◌%◌, ◌^◌, ◌<◌, ◌≡◌, ◌≢◌, refl, ap, add64, Bool, true, false, inl, inr, Bool-cases,
  some, List, [], ◌∷◌, ◌++◌, ltb, ◌==◌, if◌then◌else◌, arith, All,
}
use tarfs.Meta.{Bytes, Direct, tar_blocksize, tarblk_none}
use tarfs.Manager.{Incore, dir_data, store}
use tarfs.Header.{strlen}
use tarfs.Directory.{
  Slot, has_space, Placed, placed, assert_failed, misplaced, place_behind, fill_slot, at_offset,
}
use tarfs.Directory.Slots.{record_len, Fitted, HasFile, PlacedAs, placed_as, fill_slot-HasFile}
use tarfs.Check.{zero_incore}
use tarfs.Maker.{Inode, Maker, Run, ok, pure, and_then, grow_to, pwrite, write_block}
use tarfs.Maker.Dir.{wanted, fill_entry, count_entry, add_to_slot, add_dir_entry}

-- The inode as the C version has it
abbrev pub as_incore : Inode → Incore
as_incore inode = record (zero_incore inode.ino inode.pino) {
  i_blkno = inode.blkno;
  i_dinode = inode.dinode;
}

-- What the C++ version places, and what the C version does, which may fail its ASSERT instead
pub data Agrees : Placed → Placed → Type 0 where
  same : (p : Placed) → Agrees p p
  unless_failed : (p : Placed) → Agrees p assert_failed

Agrees-behind :
    {p q : Placed} (dp : Direct) → Agrees p q → Agrees (place_behind dp p) (place_behind dp q)
Agrees-behind dp (same p) = same (place_behind dp p)
Agrees-behind dp (unless_failed p) = unless_failed (place_behind dp p)

Agrees-if :
    {p q p' q' : Placed} (b : Bool)
    → Agrees p q
    → Agrees p' q'
    → Agrees (if b then p else p') (if b then q else q')
Agrees-if true h h' = h
Agrees-if false h h' = h'

Agrees-checked : (p : Placed) (b : Bool) → Agrees p (if b then p else assert_failed)
Agrees-checked p true = same p
Agrees-checked p false = unless_failed p

module _ (inode : Inode) (name : Bytes) (inx : ℕ) where
  Agrees-fill :
      (dp : Direct) (es : List Direct)
      → Agrees
          (fill_entry inode name dp es)
          (fill_slot (as_incore inode) name (strlen name) inx dp es)
  unfolding fill_entry fill_slot
  Agrees-fill dp es = Agrees-if (dp.d_ino == tarblk_none) (same _) (Agrees-checked _ _)

  -- At each offset of a block, `addDirEntry` makes of the entries what `tarfs_create` makes of them, or
  -- `tarfs_create` fails its ASSERT.
  pub fill_entry-fill_slot :
      (left : ℕ) (es : List Direct)
      → Agrees
          (at_offset (fill_entry inode name) left es)
          (at_offset (fill_slot (as_incore inode) name (strlen name) inx) left es)
  unfolding at_offset
  fill_entry-fill_slot left [] = same misplaced
  fill_entry-fill_slot left (dp ∷ es) = Agrees-if (left == 0) (Agrees-fill dp es) (
      Agrees-if (ltb left dp.d_reclen) (same misplaced)
        (Agrees-behind dp (fill_entry-fill_slot (left - dp.d_reclen) es)))

Agrees-PlacedAs :
    {P : List Direct → Type 0} {p q : Placed} → Agrees p q → PlacedAs P q → PlacedAs P p
Agrees-PlacedAs (same p) h = h
Agrees-PlacedAs (unless_failed p) h = elim h [ ]

-- The call returns the directory `i`, and block `blkno` has entries with `P`.
pub data Adds (i : Inode) (blkno : ℕ) (P : List Direct → Type 0) : Run Inode → Type 0 where
  adds :
      {es : List Direct} {s : Maker}
      → P es
      → s.world.blocks blkno ≡ dir_data es
      → Adds i blkno P (ok i s)

pub grown-world : (s : Maker) (end : ℕ) → (grow_to end s).world ≡ s.world
unfolding grow_to
grown-world s end = elim (Bool-cases (ltb s.blks end)) [
  | inl h ↦ rw (grow_to, h) refl
  | inr h ↦ rw (grow_to, h) refl
]

pwrite-Adds :
    {P : List Direct → Type 0} (i : Inode) (blkno : ℕ) (es : List Direct) (s : Maker)
    → blkno < s.world.capacity
    → P es
    → Adds i blkno P (and_then (pwrite (dir_data es ∷ []) blkno s) λ _. pure i)
unfolding pwrite store
pwrite-Adds i blkno es s room h =
    let fits : ltb s.world.capacity (blkno + 1) ≡ false = ground arith in
    let here : (blkno == blkno) ≡ true = ground arith in
    rw (pwrite, fits) (adds h (rw (store, here) refl))

data IsPlaced (P : List Direct → Type 0) (p : Placed) : Type 0 where
  is_placed : (es : List Direct) → p ≡ placed es → P es → IsPlaced P p

PlacedAs-IsPlaced : {P : List Direct → Type 0} {p : Placed} → PlacedAs P p → IsPlaced P p
PlacedAs-IsPlaced (placed_as {es} h) = is_placed es refl h

add_to_slot-Adds :
    {P : List Direct → Type 0} (i : Inode) (name : Bytes) (slot : Slot) (inode : Inode) (s : Maker)
    → slot.lo_slotblkno < s.world.capacity
    → PlacedAs P
        (at_offset (fill_entry inode name) (slot.lo_slotoff % tar_blocksize) slot.lo_slotbuf)
    → Adds i slot.lo_slotblkno P (add_to_slot i name slot inode s)
unfolding add_to_slot write_block
add_to_slot-Adds i name slot inode s room h = elim (PlacedAs-IsPlaced h) [
  | is_placed es e x ↦
      let world = grown-world s (add64 slot.lo_slotblkno 1) in
      rw (add_to_slot, e, write_block)
        (pwrite-Adds i slot.lo_slotblkno es (grow_to (add64 slot.lo_slotblkno 1) s)
          (rw (ap (λ w. w.capacity) world) room) x)
]

-- Let the entries of a block fill it, each with room for its name, and let one of them have space for a name
-- of less than 2^15 bytes; let the slot be this entry, and the block lie in the room that the device has.
-- Then `addDirEntry` returns. Afterwards the entries of the block fill it, each with room for its name, and it
-- has the files that it had and the new one, which stands behind that of the slot if there is one. The
-- directory has changed in its dirty flag alone, and its link count if the new file is a directory.
pub add_dir_entry-HasFile :
    (i inode : Inode) (name : Bytes) (slot : Slot) (s : Maker) (before : List Direct) (dp : Direct)
    (after : List Direct)
    → slot.lo_slotbuf ≡ before ++ dp ∷ after
    → slot.lo_slotoff % tar_blocksize ≡ record_len before
    → slot.lo_slotblkno < s.world.capacity
    → record_len (before ++ dp ∷ after) ≡ tar_blocksize
    → All Fitted (before ++ dp ∷ after)
    → strlen name < 2 ^ 15
    → has_space (wanted name) dp ≡ true
    → inode.ino ≢ tarblk_none
    → Adds
        (count_entry i inode)
        slot.lo_slotblkno
        (HasFile (as_incore inode) name (strlen name) before dp after)
        (add_dir_entry i name (some slot) inode s)
unfolding add_dir_entry
add_dir_entry-HasFile i inode name slot s before dp after entries offset room full fitted small
      space used =
    let inx = record_len before in
    add_to_slot-Adds (count_entry i inode) name slot inode s room (
      rw (entries, offset)
        (Agrees-PlacedAs (fill_entry-fill_slot inode name inx inx (before ++ dp ∷ after)) (
          fill_slot-HasFile (as_incore inode) name (strlen name) (wanted name) before dp after full
            fitted small refl space used)))

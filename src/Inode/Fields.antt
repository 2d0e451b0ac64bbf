-- ===== src/Inode/Fields.antt =====
-- What `allocDinode` leaves in `di_header`.
use tarfs.Base.{
  ℕ, ◌+◌, ◌≡◌, refl, ◌∙◌, ap, inl, inr, Bool-cases, Option, none, some, [], ◌∷◌, ltb, ◌==◌, ==_refl,
  if◌then◌else◌, add64,
}
use tarfs.Meta.{
  PosixHeader, Dext, Dinode, tarfs_ifreg, tarfs_iflnk, tarfs_ifdir, tarfs_blocks, tar_blocksize,
}
use tarfs.Manager.{Block, dinode, dir_data, Incore, Manager, pure, write_data, get_current_time}
use tarfs.Manager.Ensures.{Ensures, on_ok, on_exit, Ensures-after, Ensures-bind}
use tarfs.Alloc.{alloc_data, get_free_dirdata}
use tarfs.Extent.Fields.{insert_data_extent-Keeps}
use tarfs.Header.{getval8}
use tarfs.Inode.{
  regular_dinode, headed_dinode, fill_dinode, fresh_dinode, start_dinode, set_first_dir_data,
  set_new_dir_entry, alloc_dinode_data, alloc_dinode, count_inode,
}

regular_dinode-di_header :
    (ph : PosixHeader) (de : Dext) (d : Dinode) → (regular_dinode ph de d).di_header ≡ d.di_header
regular_dinode-di_header ph de d = elim (Bool-cases (ltb 0 (tarfs_blocks (getval8 ph.size)))) [
  | inl h ↦ rw h refl
  | inr h ↦ rw h refl
]

fill_dinode-di_header :
    (ph : Option PosixHeader) (de : Dext) (ftype : ℕ) (d : Dinode)
    → (fill_dinode ph de ftype d).di_header ≡ d.di_header
unfolding fill_dinode
fill_dinode-di_header none de ftype d = refl
fill_dinode-di_header (some ph) de ftype d = elim (Bool-cases (ftype == tarfs_ifreg)) [
  | inl h ↦ rw (fill_dinode, h) (regular_dinode-di_header ph de (headed_dinode ph ftype d))
  | inr h ↦ elim (Bool-cases (ftype == tarfs_iflnk)) [
    | inl k ↦ rw (fill_dinode, h, k) refl
    | inr k ↦ rw (fill_dinode, h, k) refl
  ]
]

-- The block is what the call left at its number.
write_data-at :
    (b : Block) (blkno : ℕ) (m : Manager)
    → Ensures (λ u m'. m'.world.blocks blkno ≡ b) (λ m'. Unit {0}) (write_data (b ∷ []) blkno m)
unfolding write_data
write_data-at b blkno m = elim (Bool-cases (ltb m.world.capacity (blkno + 1))) [
  | inl h ↦ rw (write_data, h) (on_exit tt)
  | inr h ↦ elim (Bool-cases (ltb m.m_size (add64 blkno 1))) [
    | inl k ↦ rw (write_data, h, k) (on_ok (rw (==_refl blkno) refl))
    | inr k ↦ rw (write_data, h, k) (on_ok (rw (==_refl blkno) refl))
  ]
]

-- `dp` without a header, in place of the inode `icp`
abbrev Headless : Incore → Manager → Type 0
Headless dp m = dp.i_dinode.di_header ≡ 0

set_new_dir_entry-Headless :
    (dp : Incore) (m : Manager)
    → dp.i_dinode.di_header ≡ 0
    → Ensures Headless (λ m'. Unit {0}) (set_new_dir_entry dp m)
unfolding set_new_dir_entry
set_new_dir_entry-Headless dp m none_yet =
    Ensures-after (alloc_data get_free_dirdata m) λ (buf, blkno) m1.
      Ensures-bind
        (insert_data_extent-Keeps dp.i_dinode
          (record { de_off = dp.i_dinode.di_blocks; de_blkno = blkno; de_nblks = 1 }) m1)
        λ d m2 kept.
          Ensures-after
            (write_data (dir_data (set_first_dir_data dp.i_ino dp.i_pino) ∷ []) blkno m2)
            λ u m3.
              Ensures-after
                (write_data (dinode (record d { di_blocks = 1; di_size = tar_blocksize }) ∷ [])
                  dp.i_blkno m3)
                λ v m4. on_ok (ap (λ x. x.di_header) kept ∙ none_yet)

first_entries-Headless :
    (ftype : ℕ) (dp : Incore) (m : Manager)
    → dp.i_dinode.di_header ≡ 0
    → Ensures Headless
        (λ m'. Unit {0})
        ((if ftype == tarfs_ifdir then set_new_dir_entry dp else pure dp) m)
first_entries-Headless ftype dp m none_yet = elim (Bool-cases (ftype == tarfs_ifdir)) [
  | inl h ↦ rw h (set_new_dir_entry-Headless dp m none_yet)
  | inr h ↦ rw h (on_ok none_yet)
]

-- The inode that `allocDinode` makes stands on the device at its block, and its `di_header` is 0,
-- whatever the caller has set in it and whether or not there is a header in the archive.
pub alloc_dinode-di_header :
    (icp : Incore) (ftype : ℕ) (m : Manager)
    → Ensures
        (λ dp m'. (dp.i_dinode.di_header ≡ 0) × (m'.world.blocks dp.i_blkno ≡ dinode dp.i_dinode))
        (λ m'. Unit {0})
        (alloc_dinode icp ftype m)
unfolding alloc_dinode start_dinode
alloc_dinode-di_header icp ftype m = Ensures-after (alloc_dinode_data m) λ (buf, blkno) m1.
    Ensures-bind
      (first_entries-Headless ftype _ _ (
        fill_dinode-di_header icp.i_ph icp.i_de ftype
          (fresh_dinode (get_current_time m1.world) ftype)))
      λ dp m2 e.
        Ensures-bind (write_data-at (dinode dp.i_dinode) dp.i_blkno (count_inode m2))
          λ u m3 at. on_ok (e, at)

-- ===== src/Inode/Archive.antt =====
-- The inodes that mkfs makes are not in the archive, and writing them spares it.
use tarfs.Base.{ℕ, ◌≤◌, Bool-cases, inl, inr, [], ◌∷◌, ◌==◌}
use tarfs.Meta.{Dinode, tar_blocksize, tarblk_none, tarfs_ifdir, tarfs_ifreg}
use tarfs.Manager.{dinode, dir_data, Incore, Manager, pure}
use tarfs.Manager.Archive.{
  Original, Inodes, Archived, Spares, on_ok, Done, Spares-bind, Spares-if, Spares-choice,
  write_data-Spares, read_data-Spares, as_dinode-Spares,
}
use tarfs.Alloc.{Flist, alloc_num, get_free_dirdata}
use tarfs.Alloc.Archive.{Given, alloc_free_data-Spares, pop_free-Spares, alloc_data-Spares}
use tarfs.Extent.Archive.{get_data_block-Spares, insert_data_extent-Spares}
use tarfs.Inode.{
  with_free_dinode, refill_dinodes, alloc_dinode_data, set_first_dir_data, set_new_dir_entry,
  start_dinode, count_inode, alloc_dinode, alloc_free_dinode, get_dinode,
}

-- The block of the inode is not in the archive.
abbrev pub Behind : Original → Incore → Type 0
Behind o ip = o.file.size ≤ ip.i_blkno

-- `m_free` is not in the archive.
abbrev pub FreeBehind : Original → Inodes
FreeBehind o free root = o.file.size ≤ free

module _ (o : Original) (I : Inodes) where
  with_free_dinode-Archived :
      (d : Dinode) (m : Manager) → Archived o I m → Archived o I (with_free_dinode d m)
  with_free_dinode-Archived d m h = h

  count_inode-Archived : (m : Manager) → Archived o I m → Archived o I (count_inode m)
  count_inode-Archived m h = h

  pub alloc_free_dinode-Spares :
      (m : Manager) → Archived o I m → Spares o (FreeBehind o) Done (alloc_free_dinode m)
  unfolding alloc_free_dinode
  alloc_free_dinode-Spares m h =
      Spares-bind (alloc_free_data-Spares o I Flist.dinode (alloc_num Flist.dinode) m h)
        λ u m1 d h1.
          Spares-bind (pop_free-Spares o I Flist.dinode m1 h1) λ (buf, blkno) m2 given h2.
            Spares-bind (insert_data_extent-Spares o (FreeBehind o) _ _ _ (h2.0, given))
              λ d' m3 e h3.
                write_data-Spares o (FreeBehind o) (with_free_dinode d' m3) h3 (dinode d' ∷ [])
                  blkno given

  pub get_dinode-Spares :
      (ip : Incore) (m : Manager) → Archived o I m → Spares o I (Behind o) (get_dinode ip m)
  unfolding get_dinode
  get_dinode-Spares ip m h =
      Spares-bind (get_data_block-Spares o I m.m_free.i_dinode ip.i_ino m h) λ blkno m1 d h1.
        Spares-bind (read_data-Spares o I m1 h1 blkno) λ buf m2 t h2.
          Spares-bind (as_dinode-Spares o I m2 h2 blkno buf t) λ d m3 behind h3. on_ok behind h3

  set_new_dir_entry-Spares :
      (dp : Incore) (m : Manager)
      → Archived o I m
      → Behind o dp
      → Spares o I (Behind o) (set_new_dir_entry dp m)
  unfolding set_new_dir_entry
  set_new_dir_entry-Spares dp m h behind =
      Spares-bind (alloc_data-Spares o I get_free_dirdata m h) λ (buf, blkno) m1 given h1.
        Spares-bind
          (insert_data_extent-Spares o I dp.i_dinode
            (record { de_off = dp.i_dinode.di_blocks; de_blkno = blkno; de_nblks = 1 }) m1 h1)
          λ d m2 e h2.
            Spares-bind
              (write_data-Spares o I m2 h2 (dir_data (set_first_dir_data dp.i_ino dp.i_pino) ∷ [])
                blkno given)
              λ u m3 f h3.
                Spares-bind
                  (write_data-Spares o I m3 h3
                    (dinode (record d { di_blocks = 1; di_size = tar_blocksize }) ∷ []) dp.i_blkno
                    behind)
                  λ v m4 g h4. on_ok behind h4

  start_dinode-Spares :
      (icp : Incore) (ftype blkno : ℕ) (m : Manager)
      → Archived o I m
      → o.file.size ≤ blkno
      → Spares o I (Behind o) (start_dinode icp ftype blkno m)
  unfolding start_dinode
  start_dinode-Spares icp ftype blkno m h given = elim (Bool-cases (ftype == tarfs_ifreg)) [
    | inl r ↦ rw (start_dinode, r) (on_ok given h)
    | inr r ↦ rw (start_dinode, r) (on_ok given h)
  ]

  module _ (known : (free root : ℕ) → I free root → o.file.size ≤ free) where
    refill_dinodes-Spares : (m : Manager) → Archived o I m → Spares o I Done (refill_dinodes m)
    unfolding refill_dinodes
    refill_dinodes-Spares m h =
        Spares-bind (alloc_free_data-Spares o I Flist.dinode (alloc_num Flist.dinode) m h)
          λ u m1 d h1. Spares-bind (insert_data_extent-Spares o I _ _ m1 h1) λ d m2 e h2.
            write_data-Spares o I (with_free_dinode d m2) h2 (dinode d ∷ []) m2.m_free.i_blkno
              (known m2.m_free.i_blkno m2.m_root.i_blkno h2.1)

    alloc_dinode_data-Spares :
        (m : Manager) → Archived o I m → Spares o I (Given o) (alloc_dinode_data m)
    unfolding alloc_dinode_data
    alloc_dinode_data-Spares m h =
        Spares-if (m.m_sb.tarfs_flist_dinode == tarblk_none) _ _
          (Spares-bind (refill_dinodes-Spares m h)
            λ v m3 f h3. pop_free-Spares o I Flist.dinode m3 h3)
          (pop_free-Spares o I Flist.dinode m h)

    pub alloc_dinode-Spares :
        (icp : Incore) (ftype : ℕ) (m : Manager)
        → Archived o I m
        → Spares o I (Behind o) (alloc_dinode icp ftype m)
    unfolding alloc_dinode
    alloc_dinode-Spares icp ftype m h =
        Spares-bind (alloc_dinode_data-Spares m h) λ (buf, blkno) m1 given h1.
          Spares-bind (start_dinode-Spares icp ftype blkno m1 h1 given) λ dp m2 behind h2.
            Spares-bind
              (Spares-choice (ftype == tarfs_ifdir) (set_new_dir_entry dp) (pure dp) m2
                (set_new_dir_entry-Spares dp m2 h2 behind) (on_ok behind h2))
              λ dp' m3 behind' h3.
                Spares-bind
                  (write_data-Spares o I (count_inode m3) h3 (dinode dp'.i_dinode ∷ []) dp'.i_blkno
                    behind')
                  λ u m4 e h4. on_ok behind' h4

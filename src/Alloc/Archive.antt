-- ===== src/Alloc/Archive.antt =====
-- `allocData` writes to no block of the archive, and gives none.
use tarfs.Base.{ℕ, ◌*◌, ◌-◌, ◌≤◌, ltb, ◌==◌, not, add64}
use tarfs.Meta.{tarblk_none, tar_blocksize}
use tarfs.Manager.{Block, Manager}
use tarfs.Manager.Archive.{
  Original, Inodes, Archived, Spares, on_ok, on_fail, Done, Spares-bind, Spares-if, Spares-option,
  write_data-Spares, read_data-Spares, as_free-Spares,
}
use tarfs.Alloc.{
  Flist, head, with_head, alloc_num, alloc_free_data, free_image, pop_free, flist_of, take_free,
  alloc_data, max_blocks,
}

-- A block that was allocated, with its number
abbrev pub Given : Original → Block × ℕ → Type 0
Given o (buf, blkno) = o.file.size ≤ blkno

module _ (o : Original) (I : Inodes) where
  with_head-Archived :
      (l : Flist) (v : ℕ) (m : Manager) → Archived o I m → Archived o I (with_head l v m)
  with_head-Archived Flist.regdata v m h = h
  with_head-Archived Flist.dirdata v m h = h
  with_head-Archived Flist.iexdata v m h = h
  with_head-Archived Flist.ind_dinode v m h = h
  with_head-Archived Flist.dinode v m h = h

  pub alloc_free_data-Spares :
      (l : Flist) (blocks : ℕ) (m : Manager)
      → Archived o I m
      → Spares o I Done (alloc_free_data l blocks m)
  unfolding alloc_free_data
  alloc_free_data-Spares l blocks m h =
      Spares-if (not (head l m.m_sb == tarblk_none)) _ _ (on_fail h) (
        Spares-if (ltb max_blocks blocks) _ _ (on_fail h) (
          Spares-if (ltb m.world.memory (tar_blocksize * blocks)) _ _ (on_fail h) (
            Spares-bind
              (write_data-Spares o I m h (free_image (add64 m.m_size 1) (blocks - 1)) m.m_size
                h.0.0.1)
              λ u m' d h'. on_ok tt (with_head-Archived l m.m_size m' h'))))

  pub pop_free-Spares :
      (l : Flist) (m : Manager) → Archived o I m → Spares o I (Given o) (pop_free l m)
  unfolding pop_free
  pop_free-Spares l m h = Spares-bind (read_data-Spares o I m h (head l m.m_sb)) λ buf m1 t h1.
      Spares-bind (as_free-Spares o I m1 h1 (head l m.m_sb) buf t)
        λ fdp m2 behind h2. on_ok behind (with_head-Archived l fdp.f_nextblkno m h)

  take_free-Spares :
      (l : Flist) (m : Manager) → Archived o I m → Spares o I (Given o) (take_free l m)
  unfolding take_free
  take_free-Spares l m h =
      Spares-if (head l m.m_sb == tarblk_none) _ _
        (Spares-bind (alloc_free_data-Spares l (alloc_num l) m h)
          λ u m' d h'. pop_free-Spares l m' h')
        (pop_free-Spares l m h)

  pub alloc_data-Spares :
      (flag : ℕ) (m : Manager) → Archived o I m → Spares o I (Given o) (alloc_data flag m)
  unfolding alloc_data
  alloc_data-Spares flag m h =
      Spares-option (flist_of flag) _ _ (on_fail h) λ l. take_free-Spares l m h

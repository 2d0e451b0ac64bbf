-- ===== src/Maker/Archive/Made.antt =====
-- The inodes that the C++ mkfs makes are not in the archive, and writing them spares it.
use tarfs.Base.{
  ℕ, zero, suc, ◌+◌, ◌≤◌, ◌≡◌, refl, subst, sym, Bool, true, false, add64, Option, none, some, [],
  ◌∷◌, ltb, leb, ◌==◌, set, if◌then◌else◌,
}
use tarfs.Meta.{
  Dext, IndExt, Dinode, tarblk_none, max_dinode_direct, max_indext, tarfs_ifdir, tarfs_ifreg,
}
use tarfs.Manager.{Block, dinode, ind_ext}
use tarfs.Manager.Archive.{Original, Inodes}
use tarfs.Inode.{set_first_dir_data}
use tarfs.Extent.{find_extent, direct_num, merge_extent, new_ind_ext}
use tarfs.Maker.{Inode, Maker, ok, pure}
use tarfs.Maker.Space.{Manages, iex_data, dinodes}
use tarfs.Maker.Files.{File, file_type, get_blocks, initialize, new_inode, load_inode, set_file}
use tarfs.Maker.Extents.{
  search_indirect, search_from, get_block, known_block, ins_indirect, ins_walk, ins_first, ins_next,
  ins_behind, ins_dinode, ins_block, sync,
}
use tarfs.Maker.Factory.{dir_init, enter_chunk, alloc_inode, alloc_file, get_inode, init_factory}
use tarfs.Maker.Archive.{
  Archived, Spares, on_ok, on_fault, on_fuel, Done, Spares-bind, Spares-choice, Spares-search,
  Spares-merged, write_block-Spares, read_block-Spares, as_ind_ext-Spares, as_dinode-Spares,
  alloc_block-Spares,
}

-- The block of the inode is not in the archive.
abbrev pub Behind : Original → Inode → Type 0
Behind o i = o.file.size ≤ i.blkno

abbrev pub FreeBehind : Original → Inodes
FreeBehind o f r = o.file.size ≤ f

-- The last indirect block, where there is one, is not in the archive.
abbrev LastBehind : Original → Option (ℕ × IndExt) → Type 0
LastBehind o none = Unit {0}
LastBehind o (some (ind_off, x)) = o.file.size ≤ ind_off

module _ (o : Original) (I : Inodes) where
  search_from-Spares :
      (k off p : ℕ) (s : Maker) → Archived o I s → Spares o I Done (search_from k off p s)
  unfolding search_from search_indirect
  search_from-Spares zero off p s h = on_fuel
  search_from-Spares (suc k) off p s h = Spares-bind (read_block-Spares o I s h p) λ buf s1 t h1.
      Spares-bind (as_ind_ext-Spares o I s1 h1 p buf t) λ x s2 behind h2.
        Spares-search (find_extent x.ie_num x.ie_dext off) _ _ _ s2 (λ e. on_ok tt h2) on_fault
          (Spares-choice (x.ie_next == tarblk_none) _ _ s2 (on_ok tt h2)
            (search_from-Spares k off x.ie_next s2 h2))

  pub get_block-Spares :
      (i : Inode) (off : ℕ) (s : Maker) → Archived o I s → Spares o I Done (get_block i off s)
  unfolding get_block
  get_block-Spares i off s h =
      Spares-search (find_extent (direct_num i.dinode) i.dinode.di_direct_extent off) _ _ _ s
        (λ e. on_ok tt h) on_fault
        (Spares-choice (leb i.dinode.di_nextents max_dinode_direct) _ _ s (on_ok tt h)
          (search_from-Spares i.dinode.di_nextents off i.dinode.di_root_ind_ext s h))

  pub known_block-Spares :
      (found : Option ℕ) (s : Maker) → Archived o I s → Spares o I Done (known_block found s)
  unfolding known_block
  known_block-Spares none s h = on_fault
  known_block-Spares (some b) s h = on_ok tt h

  ins_walk-Spares :
      (k : ℕ) (de : Dext) (p : ℕ) (s : Maker)
      → Archived o I s
      → Spares o I (LastBehind o) (ins_walk k de p s)
  unfolding ins_walk ins_indirect
  ins_walk-Spares zero de p s h = on_fuel
  ins_walk-Spares (suc k) de p s h = Spares-bind (read_block-Spares o I s h p) λ buf s1 t h1.
      Spares-bind (as_ind_ext-Spares o I s1 h1 p buf t) λ x s2 behind h2.
        Spares-merged (merge_extent x.ie_num x.ie_dext de) _ _ _ s2
          (λ es. Spares-choice (p == 0) _ _ s2 (on_ok tt h2) (
            Spares-bind
              (write_block-Spares o I s2 h2 (ind_ext (record x { ie_dext = es }) ∷ []) p behind)
              λ u s3 d h3. on_ok tt h3))
          on_fault
          (Spares-choice (x.ie_next == tarblk_none) _ _ s2 (on_ok behind h2)
            (ins_walk-Spares k de x.ie_next s2 h2))

  module _ (d : Dinode) (de : Dext) where
    ins_first-Spares : (s : Maker) → Archived o I s → Spares o I Done (ins_first d de s)
    unfolding ins_first
    ins_first-Spares s h = Spares-bind (alloc_block-Spares o I iex_data s h) λ b s1 given h1.
        Spares-bind (read_block-Spares o I s1 h1 b) λ buf s2 t h2.
          Spares-bind (write_block-Spares o I s2 h2 (ind_ext (new_ind_ext de) ∷ []) b given)
            λ u s3 e h3. on_ok tt h3

    ins_next-Spares :
        (q : ℕ) (x : IndExt) (s : Maker)
        → Archived o I s
        → o.file.size ≤ q
        → Spares o I Done (ins_next d q x de s)
    unfolding ins_next
    ins_next-Spares q x s h behind =
        Spares-bind (alloc_block-Spares o I iex_data s h) λ b s1 given h1.
          Spares-bind (read_block-Spares o I s1 h1 b) λ buf s2 t h2.
            Spares-bind
              (write_block-Spares o I s2 h2 (ind_ext (record x { ie_next = b }) ∷ []) q behind)
              λ u s3 e h3.
                Spares-bind (write_block-Spares o I s3 h3 (ind_ext (new_ind_ext de) ∷ []) b given)
                  λ v s4 f h4. on_ok tt h4

    ins_behind-Spares :
        (last : Option (ℕ × IndExt)) (s : Maker)
        → Archived o I s
        → LastBehind o last
        → Spares o I Done (ins_behind d de last s)
    unfolding ins_behind
    ins_behind-Spares none s h behind = on_ok tt h
    ins_behind-Spares (some (q, x)) s h behind =
        Spares-choice (ltb x.ie_num max_indext) _ _ s
          (Spares-bind
            (write_block-Spares o I s h
              (ind_ext (record x { ie_dext = set x.ie_dext x.ie_num de; ie_num = x.ie_num + 1 })
                ∷ [])
              q behind)
            λ u s1 e h1. on_ok tt h1)
          (ins_next-Spares q x s h behind)

    ins_dinode-Spares : (s : Maker) → Archived o I s → Spares o I Done (ins_dinode d de s)
    unfolding ins_dinode
    ins_dinode-Spares s h =
        Spares-merged (merge_extent (direct_num d) d.di_direct_extent de) _ _ _ s (λ es. on_ok tt h)
          on_fault
          (Spares-choice (d.di_nextents == max_dinode_direct) _ _ s (ins_first-Spares s h) (
            Spares-choice (ltb d.di_nextents max_dinode_direct) _ _ s (on_ok tt h) (
              Spares-bind (ins_walk-Spares d.di_nextents de d.di_root_ind_ext s h)
                λ last s1 behind h1. ins_behind-Spares last s1 h1 behind)))

  -- insBlock leaves the block of the inode as it is.
  pub ins_block-Spares :
      (i : Inode) (de : Dext) (s : Maker)
      → Archived o I s
      → Spares o I (λ i'. i'.blkno ≡ i.blkno) (ins_block i de s)
  unfolding ins_block
  ins_block-Spares i de s h =
      Spares-bind (ins_dinode-Spares i.dinode de s h) λ d s1 e h1. on_ok refl h1

  pub sync-Spares :
      (i : Inode) (s : Maker) → Archived o I s → Behind o i → Spares o I Done (sync i s)
  unfolding sync
  sync-Spares i s h behind =
      Spares-choice i.is_mod _ _ s
        (write_block-Spares o I s h (dinode i.dinode ∷ []) i.blkno behind) (on_ok tt h)

  load_inode-Spares :
      (ino pino blkno : ℕ) (s : Maker)
      → Archived o I s
      → Spares o I (Behind o) (load_inode ino pino blkno s)
  unfolding load_inode initialize
  load_inode-Spares ino pino blkno s h =
      Spares-bind (read_block-Spares o I s h blkno) λ buf s1 t h1.
        Spares-bind (as_dinode-Spares o I s1 h1 blkno buf t) λ d s2 behind h2. on_ok behind h2

  pub get_inode-Spares :
      (ino pino : ℕ) (s : Maker) → Archived o I s → Spares o I (Behind o) (get_inode ino pino s)
  unfolding get_inode
  get_inode-Spares ino pino s h =
      Spares-bind (get_block-Spares s.free_inode ino s h) λ found s1 d h1.
        Spares-bind (known_block-Spares found s1 h1)
          λ blkno s2 e h2. load_inode-Spares ino pino blkno s2 h2

  dir_init-Spares :
      (i : Inode) (s : Maker) → Archived o I s → Behind o i → Spares o I (Behind o) (dir_init i s)
  unfolding dir_init
  dir_init-Spares i s h behind =
      Spares-bind (alloc_block-Spares o I Manages.dir_data s h) λ blkno s1 given h1.
        Spares-bind (ins_block-Spares i _ s1 h1) λ i' s2 same h2.
          Spares-bind
            (write_block-Spares o I s2 h2 (Block.dir_data (set_first_dir_data i'.ino i'.pino) ∷ [])
              blkno given)
            λ u s3 d h3. on_ok (subst (λ b. o.file.size ≤ b) (sym same) behind) h3

  pub init_factory-Spares :
      (s : Maker) → Archived o I s → Spares o (FreeBehind o) Done (init_factory s)
  unfolding init_factory initialize
  init_factory-Spares s h = Spares-bind (alloc_block-Spares o I dinodes s h) λ blkno s1 given h1.
      Spares-bind (ins_block-Spares _ _ (record s1 { inode_num = 0 }) h1)
        λ i s2 same h2. on_ok tt (h2.0, subst (λ b. o.file.size ≤ b) (sym same) given)

  -- The free inode is not in the archive, and may be set to any that is not.
  module _ (known : (f r : ℕ) → I f r → o.file.size ≤ f)
      (settable : (f f' r : ℕ) → o.file.size ≤ f' → I f r → I f' r) where
    enter_chunk-Spares :
        (ino blkno : ℕ) (s : Maker) → Archived o I s → Spares o I Done (enter_chunk ino blkno s)
    unfolding enter_chunk
    enter_chunk-Spares ino blkno s h =
        Spares-bind (ins_block-Spares s.free_inode _ s h) λ f s1 same h1. on_ok tt (
          h1.0,
          settable s1.free_inode.blkno f.blkno s1.root.blkno
              (subst (λ b. o.file.size ≤ b) (sym same) (known s.free_inode.blkno s.root.blkno h.1))
              h1.1,
        )

    pub alloc_inode-Spares :
        (pino ftype : ℕ) (s : Maker)
        → Archived o I s
        → Spares o I (Behind o) (alloc_inode pino ftype s)
    unfolding alloc_inode new_inode initialize
    alloc_inode-Spares pino ftype s h =
        Spares-bind (alloc_block-Spares o I dinodes s h) λ blkno s1 given h1.
          Spares-bind
            (Spares-choice (s.dinodemgr.blkno == tarblk_none) (enter_chunk s.inode_num blkno)
              (pure tt) s1 (enter_chunk-Spares s.inode_num blkno s1 h1) (on_ok tt h1))
            λ u s2 d h2.
              Spares-bind
                (Spares-choice (ftype == tarfs_ifdir)
                  (dir_init (new_inode s.inode_num pino blkno ftype s2))
                  (pure (new_inode s.inode_num pino blkno ftype s2)) s2
                  (dir_init-Spares (new_inode s.inode_num pino blkno ftype s2) s2 h2 given)
                  (on_ok given h2))
                λ i s3 behind h3. on_ok behind h3

    pub alloc_file-Spares :
        (pino : ℕ) (file : File) (s : Maker)
        → Archived o I s
        → Spares o I (Behind o) (alloc_file pino file s)
    unfolding alloc_file set_file
    alloc_file-Spares pino file s h =
        Spares-bind (alloc_inode-Spares pino (file_type file) s h)
          λ i s1 behind h1. counted (file_type file == tarfs_ifreg) i s1 behind h1
      where
        counted :
            (b : Bool) (i : Inode) (s1 : Maker)
            → Behind o i
            → Archived o I s1
            → Spares o I (Behind o) (
                ok (set_file file i) (
                  if b
                  then record s1 { total_data_size = add64 s1.total_data_size (get_blocks file) }
                  else s1))
        counted true i s1 behind h1 = on_ok behind h1
        counted false i s1 behind h1 = on_ok behind h1

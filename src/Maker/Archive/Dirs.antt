-- ===== src/Maker/Archive/Dirs.antt =====
-- The directories of the C++ mkfs: a slot stands in a block that was read as one of a directory.
use tarfs.Base.{
  ℕ, zero, suc, ◌/◌, ◌%◌, ◌≤◌, ◌≡◌, refl, Option, none, some, List, [], ◌∷◌, ltb, ◌==◌,
}
use tarfs.Meta.{Bytes, Direct, tar_blocksize, tarfs_ifdir}
use tarfs.Manager.{dir_data}
use tarfs.Manager.Archive.{Original, Inodes}
use tarfs.Directory.{Slot, Cursor, matches, has_space, at_offset}
use tarfs.Maker.{Inode, Maker, M}
use tarfs.Maker.Space.{Manages}
use tarfs.Maker.Files.{File}
use tarfs.Maker.Dir.{
  load_direct, wanted, start, lookup_at, lookup_from, lookup, search_at, search_free_space_from,
  search_free_space, entry_of, fill_entry, add_to_slot, add_new_block, count_entry, add_dir_entry,
  mkdir, create,
}
use tarfs.Maker.Archive.{
  Archived, Spares, on_ok, on_fault, on_fuel, Done, Spares-bind, Spares-choice, Spares-option,
  Spares-placed, write_block-Spares, read_block-Spares, as_dir-Spares, alloc_block-Spares,
}
use tarfs.Maker.Archive.Made.{
  Behind, get_block-Spares, known_block-Spares, ins_block-Spares, get_inode-Spares,
  alloc_inode-Spares, alloc_file-Spares,
}

module _ (o : Original) where
  abbrev SlotBehind : Option Slot → Type 0
  SlotBehind none = Unit {0}
  SlotBehind (some s) = o.file.size ≤ s.lo_slotblkno

  -- Where there are entries, their block is not in the archive.
  abbrev EntriesBehind : ℕ → List Direct → Type 0
  EntriesBehind b [] = Unit {0}
  EntriesBehind b (dp ∷ es) = o.file.size ≤ b

  abbrev CursorBehind : Cursor → Type 0
  CursorBehind c = EntriesBehind c.dirblkno c.dp

  EntriesBehind-all : (b : ℕ) (es : List Direct) → o.file.size ≤ b → EntriesBehind b es
  EntriesBehind-all b [] h = tt
  EntriesBehind-all b (dp ∷ es) h = h

  abbrev pub MaybeBehind : Option Inode → Type 0
  MaybeBehind none = Unit {0}
  MaybeBehind (some i) = Behind o i

  abbrev pub PairBehind : Inode → Inode × Inode → Type 0
  PairBehind i (d, n) = (d.blkno ≡ i.blkno) × Behind o n

  module _ (I : Inodes) where
    load_direct-Spares :
        (i : Inode) (off : ℕ) (c : Cursor) (s : Maker)
        → Archived o I s
        → CursorBehind c
        → Spares o I CursorBehind (load_direct i off c s)
    unfolding load_direct
    load_direct-Spares i off c s h behind =
        Spares-choice (off % tar_blocksize == 0) _ _ s
          (Spares-bind (get_block-Spares o I i (off / tar_blocksize) s h) λ found s1 d h1.
            Spares-bind (known_block-Spares o I found s1 h1) λ b s2 e h2.
              Spares-bind (read_block-Spares o I s2 h2 b) λ buf s3 t h3.
                Spares-bind (as_dir-Spares o I s3 h3 b buf t)
                  λ es s4 known h4. on_ok (EntriesBehind-all b es known) h4)
          (on_ok behind h)

    lookup_at-Spares :
        (name : Bytes) (off b : ℕ) (dirbuf dp : List Direct) (rest : ℕ → Cursor → M (Option ℕ))
        (s : Maker)
        → Archived o I s
        → EntriesBehind b dp
        → ((off' : ℕ) (c' : Cursor) → CursorBehind c' → Spares o I Done (rest off' c' s))
        → Spares o I Done
            (lookup_at name off (record { dirblkno = b; dirbuf = dirbuf; dp = dp }) rest s)
    unfolding lookup_at
    lookup_at-Spares name off b dirbuf [] rest s h behind next = on_fault
    lookup_at-Spares name off b dirbuf (dp ∷ es) rest s h behind next =
        Spares-choice (matches (wanted name) dp) _ _ s (on_ok tt h)
          (next _ _ (EntriesBehind-all b es behind))

    lookup_from-Spares :
        (k : ℕ) (name : Bytes) (i : Inode) (off : ℕ) (c : Cursor) (s : Maker)
        → Archived o I s
        → CursorBehind c
        → Spares o I Done (lookup_from k name i off c s)
    unfolding lookup_from
    lookup_from-Spares zero name i off c s h behind =
        Spares-choice (ltb off i.dinode.di_size) _ _ s on_fuel (on_ok tt h)
    lookup_from-Spares (suc k) name i off c s h behind =
        Spares-choice (ltb off i.dinode.di_size) _ _ s
          (Spares-bind (load_direct-Spares i off c s h behind) λ c' s1 behind' h1.
            lookup_at-Spares name off c'.dirblkno c'.dirbuf c'.dp (lookup_from k name i) s1 h1
              behind' λ off' d db. lookup_from-Spares k name i off' d s1 h1 db)
          (on_ok tt h)

    pub lookup-Spares :
        (i : Inode) (name : Bytes) (s : Maker)
        → Archived o I s
        → Spares o I MaybeBehind (lookup i name s)
    unfolding lookup
    lookup-Spares i name s h =
        Spares-bind (lookup_from-Spares i.dinode.di_size name i 0 start s h tt) λ found s1 d h1.
          Spares-option found _ _ s1 (on_ok tt h1) λ ino.
            Spares-bind (get_inode-Spares o I ino i.ino s1 h1) λ inode s2 behind h2. on_ok behind h2

    search_at-Spares :
        (name : Bytes) (off b : ℕ) (dirbuf dp : List Direct) (rest : ℕ → Cursor → M (Option Slot))
        (s : Maker)
        → Archived o I s
        → EntriesBehind b dp
        → ((off' : ℕ) (c' : Cursor) → CursorBehind c' → Spares o I SlotBehind (rest off' c' s))
        → Spares o I SlotBehind
            (search_at name off (record { dirblkno = b; dirbuf = dirbuf; dp = dp }) rest s)
    unfolding search_at
    search_at-Spares name off b dirbuf [] rest s h behind next = on_fault
    search_at-Spares name off b dirbuf (dp ∷ es) rest s h behind next =
        Spares-choice (has_space (wanted name) dp) _ _ s (on_ok behind h)
          (next _ _ (EntriesBehind-all b es behind))

    search_free_space_from-Spares :
        (k : ℕ) (name : Bytes) (i : Inode) (off : ℕ) (c : Cursor) (s : Maker)
        → Archived o I s
        → CursorBehind c
        → Spares o I SlotBehind (search_free_space_from k name i off c s)
    unfolding search_free_space_from
    search_free_space_from-Spares zero name i off c s h behind =
        Spares-choice (ltb off i.dinode.di_size) _ _ s on_fuel (on_ok tt h)
    search_free_space_from-Spares (suc k) name i off c s h behind =
        Spares-choice (ltb off i.dinode.di_size) _ _ s
          (Spares-bind (load_direct-Spares i off c s h behind) λ c' s1 behind' h1.
            search_at-Spares name off c'.dirblkno c'.dirbuf c'.dp (search_free_space_from k name i)
              s1 h1 behind' λ off' d db. search_free_space_from-Spares k name i off' d s1 h1 db)
          (on_ok tt h)

    add_to_slot-Spares :
        (i : Inode) (name : Bytes) (slot : Slot) (inode : Inode) (s : Maker)
        → Archived o I s
        → o.file.size ≤ slot.lo_slotblkno
        → Spares o I (λ i'. i'.blkno ≡ i.blkno) (add_to_slot i name slot inode s)
    unfolding add_to_slot
    add_to_slot-Spares i name slot inode s h known =
        Spares-placed
          (at_offset (fill_entry inode name) (slot.lo_slotoff % tar_blocksize) slot.lo_slotbuf) _ _
          _ s on_fault on_fault
          λ es.
            Spares-bind (write_block-Spares o I s h (dir_data es ∷ []) slot.lo_slotblkno known)
              λ u s1 d h1. on_ok refl h1

    add_new_block-Spares :
        (i : Inode) (name : Bytes) (inode : Inode) (s : Maker)
        → Archived o I s
        → Spares o I (λ i'. i'.blkno ≡ i.blkno) (add_new_block i name inode s)
    unfolding add_new_block
    add_new_block-Spares i name inode s h =
        Spares-bind (alloc_block-Spares o I Manages.dir_data s h) λ b s1 given h1.
          Spares-bind (read_block-Spares o I s1 h1 b) λ buf s2 t h2.
            Spares-bind (ins_block-Spares o I i _ s2 h2) λ i' s3 same h3.
              Spares-bind
                (write_block-Spares o I s3 h3
                  (dir_data (entry_of inode name tar_blocksize ∷ []) ∷ []) b given)
                λ u s4 d h4. on_ok same h4

    add_dir_entry-Spares :
        (i : Inode) (name : Bytes) (slot : Option Slot) (inode : Inode) (s : Maker)
        → Archived o I s
        → SlotBehind slot
        → Spares o I (λ i'. i'.blkno ≡ i.blkno) (add_dir_entry i name slot inode s)
    unfolding add_dir_entry
    add_dir_entry-Spares i name none inode s h known =
        add_new_block-Spares (count_entry i inode) name inode s h
    add_dir_entry-Spares i name (some slot) inode s h known =
        add_to_slot-Spares (count_entry i inode) name slot inode s h known

    module _ (known : (f r : ℕ) → I f r → o.file.size ≤ f)
        (settable : (f f' r : ℕ) → o.file.size ≤ f' → I f r → I f' r) where
      pub mkdir-Spares :
          (i : Inode) (name : Bytes) (s : Maker)
          → Archived o I s
          → Spares o I (PairBehind i) (mkdir i name s)
      unfolding mkdir search_free_space
      mkdir-Spares i name s h =
          Spares-bind (alloc_inode-Spares o I known settable i.ino tarfs_ifdir s h) λ dir s1 new h1.
            Spares-bind (search_free_space_from-Spares i.dinode.di_size name i 0 start s1 h1 tt)
              λ slot s2 sb h2.
                Spares-bind (add_dir_entry-Spares i name slot dir s2 h2 sb)
                  λ i' s3 same h3. on_ok (same, new) h3

      pub create-Spares :
          (i : Inode) (name : Bytes) (file : File) (s : Maker)
          → Archived o I s
          → Spares o I (PairBehind i) (create i name file s)
      unfolding create search_free_space
      create-Spares i name file s h =
          Spares-bind (alloc_file-Spares o I known settable i.ino file s h) λ inode s1 new h1.
            Spares-bind (search_free_space_from-Spares i.dinode.di_size name i 0 start s1 h1 tt)
              λ slot s2 sb h2.
                Spares-bind (add_dir_entry-Spares i name slot inode s2 h2 sb)
                  λ i' s3 same h3. on_ok (same, new) h3

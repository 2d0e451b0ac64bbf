-- ===== src/Directory/Archive.antt =====
-- `tarfs_create` writes to no block of the archive: the slot that `tarfs_lookup` finds stands in a block
-- that was read as one of a directory.
use tarfs.Base.{
  ℕ, zero, suc, ◌/◌, ◌%◌, ◌≤◌, Bool-cases, inl, inr, Option, none, some, List, [], ◌∷◌, ltb, ◌==◌,
  arith, add64,
}
use tarfs.Meta.{Bytes, Direct, Dinode, tar_blocksize}
use tarfs.Manager.{dinode, dir_data, Incore, Manager, M}
use tarfs.Manager.Archive.{
  Original, Inodes, Archived, Spares, on_ok, on_exit, on_fault, on_fuel, Spares-bind, Spares-choice,
  write_data-Spares, read_data-Spares, as_dir-Spares,
}
use tarfs.Header.{strlen}
use tarfs.Alloc.{get_free_dirdata}
use tarfs.Alloc.Archive.{alloc_data-Spares}
use tarfs.Extent.Archive.{get_data_block-Spares, insert_data_extent-Spares}
use tarfs.Inode.Archive.{Behind, get_dinode-Spares, alloc_dinode-Spares}
use tarfs.Directory.{
  Slot, LookupOp, Looked, found, absent, matches, has_space, note_slot, Cursor, load_entry,
  lookup_step, lookup_loop, tarfs_lookup, Placed, placed, assert_failed, misplaced, at_offset,
  fill_slot, use_slot, new_entry, add_dir_block, link_parent, create_type, create_absent,
  create_looked, tarfs_create,
}

Spares-placed :
    {o : Original} {I : Inodes} {A : Type 0} {P : A → Type 0} (p : Placed) (f g : M A)
    (k : List Direct → M A) (m : Manager)
    → Spares o I P (f m)
    → Spares o I P (g m)
    → ((es : List Direct) → Spares o I P (k es m))
    → Spares o I P
        ((elim p as (λ x. M A) [ misplaced ↦ f | assert_failed ↦ g | placed es ↦ k es ]) m)
Spares-placed misplaced f g k m hf hg hk = hf
Spares-placed assert_failed f g k m hf hg hk = hg
Spares-placed (placed es) f g k m hf hg hk = hk es

module _ (o : Original) where
  abbrev SlotBehind : Option Slot → Type 0
  SlotBehind none = Unit {0}
  SlotBehind (some s) = o.file.size ≤ s.lo_slotblkno

  abbrev pub LookedBehind : Looked → Type 0
  LookedBehind (found ino) = Unit {0}
  LookedBehind (absent slot) = SlotBehind slot

  -- Where there are entries, their block is not in the archive.
  abbrev EntriesBehind : ℕ → List Direct → Type 0
  EntriesBehind b [] = Unit {0}
  EntriesBehind b (dp ∷ es) = o.file.size ≤ b

  abbrev CursorBehind : Cursor → Type 0
  CursorBehind c = EntriesBehind c.dirblkno c.dp

  note_slot-SlotBehind :
      (op : LookupOp) (off b : ℕ) (es : List Direct) (dp : Direct) (slot : Option Slot)
      → o.file.size ≤ b
      → SlotBehind slot
      → SlotBehind (note_slot op off b es dp slot)
  unfolding note_slot
  note_slot-SlotBehind op off b es dp (some s) behind known = known
  note_slot-SlotBehind op off b es dp none behind known = elim (Bool-cases (has_space op dp)) [
    | inl h ↦ rw (note_slot, h) behind
    | inr h ↦ rw (note_slot, h) tt
  ]

  EntriesBehind-all : (b : ℕ) (es : List Direct) → o.file.size ≤ b → EntriesBehind b es
  EntriesBehind-all b [] h = tt
  EntriesBehind-all b (dp ∷ es) h = h

  module _ (I : Inodes) where
    load_entry-Spares :
        (parentp : Dinode) (off : ℕ) (c : Cursor) (m : Manager)
        → Archived o I m
        → CursorBehind c
        → Spares o I CursorBehind (load_entry parentp off c m)
    unfolding load_entry
    load_entry-Spares parentp off c m h behind =
        Spares-choice (off % tar_blocksize == 0) _ _ m
          (Spares-bind (get_data_block-Spares o I parentp (off / tar_blocksize) m h) λ b m1 d h1.
            Spares-bind (read_data-Spares o I m1 h1 b) λ buf m2 t h2.
              Spares-bind (as_dir-Spares o I m2 h2 b buf t)
                λ es m3 known h3. on_ok (EntriesBehind-all b es known) h3)
          (on_ok behind h)

    lookup_step-Spares :
        (op : LookupOp) (off b : ℕ) (dirbuf dp : List Direct) (slot : Option Slot)
        (rest : ℕ → Cursor → Option Slot → M Looked) (m : Manager)
        → Archived o I m
        → EntriesBehind b dp
        → SlotBehind slot
        → ((off' : ℕ) (c' : Cursor) (slot' : Option Slot)
            → CursorBehind c'
            → SlotBehind slot'
            → Spares o I LookedBehind (rest off' c' slot' m))
        → Spares o I LookedBehind
            (lookup_step op off (record { dirblkno = b; dirbuf = dirbuf; dp = dp }) slot rest m)
    unfolding lookup_step
    lookup_step-Spares op off b dirbuf [] slot rest m h behind known next = on_fault
    lookup_step-Spares op off b dirbuf (dp ∷ es) slot rest m h behind known next =
        Spares-choice (matches op dp) _ _ m (on_ok tt h) (
          next _ _ _ (EntriesBehind-all b es behind)
            (note_slot-SlotBehind op off b dirbuf dp slot behind known))

    lookup_loop-Spares :
        (k : ℕ) (op : LookupOp) (parentp : Dinode) (off : ℕ) (c : Cursor) (slot : Option Slot)
        (m : Manager)
        → Archived o I m
        → CursorBehind c
        → SlotBehind slot
        → Spares o I LookedBehind (lookup_loop k op parentp off c slot m)
    unfolding lookup_loop
    lookup_loop-Spares zero op parentp off c slot m h behind known =
        Spares-choice (ltb off parentp.di_size) _ _ m on_fuel (on_ok known h)
    lookup_loop-Spares (suc k) op parentp off c slot m h behind known =
        Spares-choice (ltb off parentp.di_size) _ _ m
          (Spares-bind (load_entry-Spares parentp off c m h behind) λ c' m1 behind' h1.
            lookup_step-Spares op off c'.dirblkno c'.dirbuf c'.dp slot (lookup_loop k op parentp) m1
              h1 behind' known
              λ off' d slot' db sb. lookup_loop-Spares k op parentp off' d slot' m1 h1 db sb)
          (on_ok known h)

    use_slot-Spares :
        (parentp icp : Incore) (fname : Bytes) (namelen : ℕ) (slot : Slot) (m : Manager)
        → Archived o I m
        → Behind o parentp
        → o.file.size ≤ slot.lo_slotblkno
        → Spares o I (Behind o) (use_slot parentp icp fname namelen slot m)
    unfolding use_slot
    use_slot-Spares parentp icp fname namelen slot m h behind known =
        Spares-placed
          (at_offset (fill_slot icp fname namelen (slot.lo_slotoff % tar_blocksize))
            (slot.lo_slotoff % tar_blocksize) slot.lo_slotbuf)
          _ _ _ m on_fault (on_exit h.0.0)
          λ es.
            Spares-bind (write_data-Spares o I m h (dir_data es ∷ []) slot.lo_slotblkno known)
              λ u m1 d h1.
                Spares-bind
                  (write_data-Spares o I m1 h1 (dinode parentp.i_dinode ∷ []) parentp.i_blkno
                    behind)
                  λ v m2 e h2. on_ok behind h2

    add_dir_block-Spares :
        (parentp icp : Incore) (fname : Bytes) (namelen : ℕ) (m : Manager)
        → Archived o I m
        → Behind o parentp
        → Spares o I (Behind o) (add_dir_block parentp icp fname namelen m)
    unfolding add_dir_block
    add_dir_block-Spares parentp icp fname namelen m h behind =
        Spares-bind (alloc_data-Spares o I get_free_dirdata m h) λ (buf, b) m1 given h1.
          Spares-bind (insert_data_extent-Spares o I parentp.i_dinode _ m1 h1) λ d m2 e h2.
            Spares-bind
              (write_data-Spares o I m2 h2
                (dir_data (new_entry icp fname namelen tar_blocksize ∷ []) ∷ []) b given)
              λ u m3 f h3.
                Spares-bind
                  (write_data-Spares o I m3 h3
                    (dinode (record d {
                      di_blocks = add64 d.di_blocks 1;
                      di_size = add64 d.di_size tar_blocksize;
                    })
                      ∷ [])
                    parentp.i_blkno behind)
                  λ v m4 g h4. on_ok behind h4

    -- The parent and the file after the call are not in the archive.
    abbrev pub PairBehind : Incore × Incore → Type 0
    PairBehind (parentp, icp) = Behind o parentp × Behind o icp

    link_parent-Behind :
        (icp parentp : Incore) → Behind o parentp → Behind o (link_parent icp parentp)
    link_parent-Behind icp parentp behind = ground arith

    module _ (known : (free root : ℕ) → I free root → o.file.size ≤ free) where
      create_absent-Spares :
          (parentp icp : Incore) (fname : Bytes) (namelen : ℕ) (slot : Option Slot) (m : Manager)
          → Archived o I m
          → Behind o parentp
          → SlotBehind slot
          → Spares o I PairBehind (create_absent parentp icp fname namelen slot m)
      unfolding create_absent
      create_absent-Spares parentp icp fname namelen none m h behind sb =
          Spares-bind (alloc_dinode-Spares o I known icp (create_type icp.i_ph) m h)
            λ icp' m1 new h1.
              Spares-bind
                (add_dir_block-Spares (link_parent icp' parentp) icp' fname namelen m1 h1
                  (link_parent-Behind icp' parentp behind))
                λ p' m2 behind' h2. on_ok (behind', new) h2
      create_absent-Spares parentp icp fname namelen (some s) m h behind sb =
          Spares-bind (alloc_dinode-Spares o I known icp (create_type icp.i_ph) m h)
            λ icp' m1 new h1.
              Spares-bind
                (use_slot-Spares (link_parent icp' parentp) icp' fname namelen s m1 h1
                  (link_parent-Behind icp' parentp behind) sb)
                λ p' m2 behind' h2. on_ok (behind', new) h2

      create_looked-Spares :
          (parentp icp : Incore) (fname : Bytes) (namelen : ℕ) (looked : Looked) (m : Manager)
          → Archived o I m
          → Behind o parentp
          → LookedBehind looked
          → Spares o I PairBehind (create_looked parentp icp fname namelen looked m)
      unfolding create_looked
      create_looked-Spares parentp icp fname namelen (found ino) m h behind lb =
          Spares-bind (get_dinode-Spares o I (record icp { i_ino = ino }) m h)
            λ icp' m1 new h1. on_ok (behind, new) h1
      create_looked-Spares parentp icp fname namelen (absent slot) m h behind lb =
          create_absent-Spares parentp icp fname namelen slot m h behind lb

      pub tarfs_create-Spares :
          (parentp : Incore) (fname : Bytes) (icp : Incore) (m : Manager)
          → Archived o I m
          → Behind o parentp
          → Spares o I PairBehind (tarfs_create parentp fname icp m)
      unfolding tarfs_create tarfs_lookup
      tarfs_create-Spares parentp fname icp m h behind =
          Spares-bind
            (lookup_loop-Spares parentp.i_dinode.di_size _ parentp.i_dinode 0 _ none m h tt tt)
            λ looked m1 lb h1.
              create_looked-Spares parentp icp fname (strlen fname) looked m1 h1 behind lb

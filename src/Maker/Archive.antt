-- ===== src/Maker/Archive.antt =====
-- What spares the archive in the C++ mkfs: blocks are read, written and allocated behind it.
pub mod Made
pub mod Dirs
pub mod Main
use tarfs.Base.{
  take, ℕ, ◌+◌, ◌-◌, ◌*◌, ◌%◌, ◌^◌, ◌≤◌, ◌<◌, ◌≡◌, ◌∙◌, sym, subst, Bool, true, false, inl, inr,
  Bool-cases, Option, none, some, List, arith, ltb, ◌==◌, length, add64, if◌then◌else◌,
}
use tarfs.Meta.{tarsblock_magic, Direct, tar_blocksize, tarblk_none}
use tarfs.Manager.{Block, free_data, dinode, ind_ext, store, World}
use tarfs.Manager.Archive.{
  Tarred, Original, Inodes, store-before, not_tarred, size_grown, size_same, tarfs_size_grown,
}
use tarfs.Extent.{Search, hit, missed, Merged, merged, unmatched}
use tarfs.Directory.{Placed, placed, assert_failed, misplaced}
use tarfs.Meta.{Dext}
use tarfs.Alloc.{free_image}
use tarfs.Maker.{
  Maker, Run, ok, exited, fault, out_of_fuel, M, and_then, rollback, read_block, write_block,
  grow_to, pwrite, as_ind_ext, as_dinode, as_dir,
}
use tarfs.Maker.Space.{
  Manages, dir_data, iex_data, dinodes, manager, with_manager, with_blkno, as_free, new_chunk,
  next_free, alloc_block,
}

-- The file has `blks` blocks, and the super block says how many of them are behind the archive, and where
-- the first inodes are.
abbrev pub Sized : Original → Maker → Type 0
Sized o s =
    (s.world.size ≡ s.blks)
    × (s.world.capacity ≡ o.file.capacity)
    × (s.sb.tarfs_size + o.file.size ≡ s.blks)
    × (s.sb.tarfs_magic ≡ tarsblock_magic)
    × (s.sb.tarfs_free ≡ o.file.size)

-- The archive stands in the file as it was, the FsMaker believes that it ends where it does, and the sizes
-- agree.
abbrev pub Kept : Original → Maker → Type 0
Kept o s =
    (s.orgblks ≡ o.file.size)
    × (o.file.size ≤ s.blks)
    × ((b : ℕ) → b < o.file.size → s.world.blocks b ≡ o.file.blocks b)
    × Sized o s

-- The file `w'` has the size of `w` and its blocks.
abbrev pub IsRestored : World → World → Type 0
IsRestored w w' = (w'.size ≡ w.size) × ((b : ℕ) → b < w.size → w'.blocks b ≡ w.blocks b)

abbrev pub Archived : Original → Inodes → Maker → Type 0
Archived o I s = Kept o s × I s.free_inode.blkno s.root.blkno

-- The archive is kept on each way in which a call can end, and `P` holds of what the call returns. By
-- `exit` the file is restored.
pub data Spares (o : Original) (I : Inodes) {A : Type 0} (P : A → Type 0) : Run A → Type 0 where
  on_ok : {a : A} {s : Maker} → P a → Archived o I s → Spares o I P (ok a s)
  on_exit : {s : Maker} → IsRestored o.file s.world → Spares o I P (exited s)
  on_fault : Spares o I P fault
  on_fuel : Spares o I P out_of_fuel

abbrev pub Done : {A : Type 0} → A → Type 0
Done a = Unit {0}

module _ {o : Original} {I J : Inodes} {A B : Type 0} {P : A → Type 0} where
  pub Spares-bind :
      {P' : B → Type 0} {r : Run A} {k : A → M B}
      → Spares o I P r
      → ((a : A) (s : Maker) → P a → Archived o I s → Spares o J P' (k a s))
      → Spares o J P' (and_then r k)
  Spares-bind (on_ok p h) next = next _ _ p h
  Spares-bind (on_exit h) next = on_exit h
  Spares-bind on_fault next = on_fault
  Spares-bind on_fuel next = on_fuel

module _ {o : Original} {I : Inodes} {A : Type 0} {P : A → Type 0} where
  pub Spares-if :
      (b : Bool) (r t : Run A) → Spares o I P r → Spares o I P t → Spares o I P (if b then r else t)
  Spares-if true r t hr ht = hr
  Spares-if false r t hr ht = ht

  pub Spares-choice :
      (b : Bool) (r t : M A) (s : Maker)
      → Spares o I P (r s)
      → Spares o I P (t s)
      → Spares o I P ((if b then r else t) s)
  Spares-choice true r t s hr ht = hr
  Spares-choice false r t s hr ht = ht

  pub Spares-option :
      {B : Type 0} (x : Option B) (f : M A) (g : B → M A) (s : Maker)
      → Spares o I P (f s)
      → ((b : B) → Spares o I P (g b s))
      → Spares o I P ((elim x as (λ x. M A) [ none ↦ f | some b ↦ g b ]) s)
  Spares-option none f g s hf hg = hf
  Spares-option (some b) f g s hf hg = hg b

  pub Spares-search :
      (r : Search) (f : Dext → M A) (g k : M A) (s : Maker)
      → ((e : Dext) → Spares o I P (f e s))
      → Spares o I P (g s)
      → Spares o I P (k s)
      → Spares o I P ((elim r as (λ x. M A) [ hit e ↦ f e | Search.overrun ↦ g | missed ↦ k ]) s)
  Spares-search (hit e) f g k s hf hg hk = hf e
  Spares-search Search.overrun f g k s hf hg hk = hg
  Spares-search missed f g k s hf hg hk = hk

  pub Spares-merged :
      (r : Merged) (f : List Dext → M A) (g k : M A) (s : Maker)
      → ((es : List Dext) → Spares o I P (f es s))
      → Spares o I P (g s)
      → Spares o I P (k s)
      → Spares o I P
          ((elim r as (λ x. M A) [ merged es ↦ f es | Merged.overrun ↦ g | unmatched ↦ k ]) s)
  Spares-merged (merged es) f g k s hf hg hk = hf es
  Spares-merged Merged.overrun f g k s hf hg hk = hg
  Spares-merged unmatched f g k s hf hg hk = hk

  pub Spares-placed :
      (p : Placed) (f g : M A) (k : List Direct → M A) (s : Maker)
      → Spares o I P (f s)
      → Spares o I P (g s)
      → ((es : List Direct) → Spares o I P (k es s))
      → Spares o I P
          ((elim p as (λ x. M A) [ misplaced ↦ f | assert_failed ↦ g | placed es ↦ k es ]) s)
  Spares-placed misplaced f g k s hf hg hk = hf
  Spares-placed assert_failed f g k s hf hg hk = hg
  Spares-placed (placed es) f g k s hf hg hk = hk es

module _ (o : Original) (I : Inodes) (s : Maker) (h : Archived o I s) where
  pub rollback-Spares : {A : Type 0} {P : A → Type 0} → Spares o I P (rollback {A = A} s)
  unfolding rollback
  rollback-Spares = on_exit (h.0.0, h.0.2)

  -- What writeBlock does, also where the buffer is the super block that it changes
  pub grown-Spares :
      (p : List Block) (blkno : ℕ)
      → o.file.size ≤ blkno
      → Spares o I Done (pwrite p blkno (grow_to (add64 blkno (length p)) s))
  unfolding grow_to pwrite rollback
  grown-Spares p blkno behind =
      let kept : (b : ℕ) → b < o.file.size → store s.world.blocks blkno p b ≡ o.file.blocks b =
        λ b i. store-before s.world.blocks blkno p b (omega arith) ∙ h.0.2 b i in
      let part : (b : ℕ)
          → b < o.file.size
          → store s.world.blocks blkno (take (s.world.capacity - blkno) p) b ≡ o.file.blocks b =
        λ b i.
          store-before s.world.blocks blkno (take (s.world.capacity - blkno) p) b (omega arith)
          ∙ h.0.2 b i in
      elim (Bool-cases (ltb s.blks (add64 blkno (length p)))) [
        | inl d ↦ elim (Bool-cases (ltb s.world.capacity (blkno + length p))) [
          | inl c ↦ rw (d, c) (on_exit (h.0.0, part))
          | inr c ↦
              rw (d, c)
                (on_ok tt (
                  (
                    h.0.0,
                    ground arith,
                    kept,
                    (
                      size_grown s.world.size s.blks (add64 blkno (length p)) h.0.3.0 d,
                      h.0.3.1,
                      tarfs_size_grown o.file.size s.orgblks s.blks blkno (length p) h.0.0 h.0.1 d,
                      h.0.3.3,
                      h.0.3.4,
                    ),
                  ),
                  h.1,
                ))
        ]
        | inr d ↦ elim (Bool-cases (ltb s.world.capacity (blkno + length p))) [
          | inl c ↦ rw (d, c) (on_exit (h.0.0, part))
          | inr c ↦
              rw (d, c)
                (on_ok tt (
                  (
                    h.0.0,
                    h.0.1,
                    kept,
                    (
                      size_same s.world.size s.blks (add64 blkno (length p)) h.0.3.0 d,
                      h.0.3.1,
                      h.0.3.2,
                      h.0.3.3,
                      h.0.3.4,
                    ),
                  ),
                  h.1,
                ))
        ]
      ]

  pub write_block-Spares :
      (p : List Block) (blkno : ℕ) → o.file.size ≤ blkno → Spares o I Done (write_block p blkno s)
  unfolding write_block
  write_block-Spares p blkno behind = grown-Spares p blkno behind

  pub read_block-Spares :
      (blkno : ℕ) → Spares o I (λ b. blkno < o.file.size → Tarred b) (read_block blkno s)
  unfolding read_block
  read_block-Spares blkno = elim (Bool-cases (ltb s.world.size (blkno + 1))) [
    | inl c ↦ rw (read_block, c) rollback-Spares
    | inr c ↦
        rw (read_block, c) (on_ok (λ i. subst Tarred (sym (h.0.2 blkno i)) (o.tarred blkno i)) h)
  ]

  -- A block that is read as metadata is not one of the archive.
  module _ (blkno : ℕ) where
    as_free-Spares :
        (b : Block)
        → (blkno < o.file.size → Tarred b)
        → Spares o I (λ d. o.file.size ≤ blkno) (as_free b s)
    unfolding as_free
    as_free-Spares (free_data d) t = on_ok (not_tarred o blkno t) h
    as_free-Spares _ t = on_fault

    pub as_dinode-Spares :
        (b : Block)
        → (blkno < o.file.size → Tarred b)
        → Spares o I (λ d. o.file.size ≤ blkno) (as_dinode b s)
    unfolding as_dinode
    as_dinode-Spares (dinode d) t = on_ok (not_tarred o blkno t) h
    as_dinode-Spares _ t = on_fault

    pub as_ind_ext-Spares :
        (b : Block)
        → (blkno < o.file.size → Tarred b)
        → Spares o I (λ x. o.file.size ≤ blkno) (as_ind_ext b s)
    unfolding as_ind_ext
    as_ind_ext-Spares (ind_ext x) t = on_ok (not_tarred o blkno t) h
    as_ind_ext-Spares _ t = on_fault

    pub as_dir-Spares :
        (b : Block)
        → (blkno < o.file.size → Tarred b)
        → Spares o I (λ es. o.file.size ≤ blkno) (as_dir b s)
    unfolding as_dir
    as_dir-Spares (Block.dir_data es) t = on_ok (not_tarred o blkno t) h
    as_dir-Spares _ t = on_fault

module _ (o : Original) (I : Inodes) where
  with_blkno-Archived :
      (sp : Manages) (v : ℕ) (s : Maker) → Archived o I s → Archived o I (with_blkno sp v s)
  with_blkno-Archived dir_data v s h = h
  with_blkno-Archived iex_data v s h = h
  with_blkno-Archived dinodes v s h = h

  new_chunk-Spares :
      (sp : Manages) (s : Maker)
      → Archived o I s
      → Spares o I (λ b. o.file.size ≤ b) (new_chunk sp s)
  unfolding new_chunk
  new_chunk-Spares sp s h =
      Spares-bind
        (write_block-Spares o I (with_blkno sp (s.blks + 1) s)
          (with_blkno-Archived sp (s.blks + 1) s h)
          (free_image (add64 s.blks 1) ((manager sp s).bulks - 1)) s.blks h.0.1)
        λ u s1 d h1. on_ok h.0.1 h1

  next_free-Spares :
      (sp : Manages) (s : Maker)
      → Archived o I s
      → Spares o I (λ b. o.file.size ≤ b) (next_free sp s)
  unfolding next_free
  next_free-Spares sp s h =
      let blkno = (manager sp s).blkno in
      Spares-bind (read_block-Spares o I s h blkno) λ buf s1 t h1.
        Spares-bind (as_free-Spares o I s1 h1 blkno buf t)
          λ d s2 behind h2. on_ok behind (with_blkno-Archived sp d.f_nextblkno s2 h2)

  pub alloc_block-Spares :
      (sp : Manages) (s : Maker)
      → Archived o I s
      → Spares o I (λ b. o.file.size ≤ b) (alloc_block sp s)
  unfolding alloc_block
  alloc_block-Spares sp s h =
      Spares-if (ltb s.world.memory ((manager sp s).bulks * tar_blocksize)) _ _
        (rollback-Spares o I s h)
        (Spares-if ((manager sp s).blkno == tarblk_none) _ _ (new_chunk-Spares sp s h)
          (next_free-Spares sp s h))

-- ===== src/Manager/Archive.antt =====
-- What spares the archive: a call that keeps the blocks of the original file, however it ends.
use tarfs.Meta.{tarsblock_magic}
use tarfs.Base.{
  take, ◌-◌, ◌%◌, ◌^◌, ℕ, ◌+◌, ◌≤◌, ◌<◌, ◌≡◌, refl, ◌∙◌, sym, subst, Bool, true, false, inl, inr,
  Bool-cases, Option, none, some, List, [], ◌∷◌, arith, ltb, ne→==, add64, length, if◌then◌else◌,
}
use tarfs.Manager.{
  Block, header, contents, free_data, dinode, ind_ext, dir_data, World, Manager, Errno, Run, ok,
  fail, exited, fault, out_of_fuel, M, and_then, store, write_data, read_data, do_rollback, as_free,
  as_dinode, as_ind_ext, as_dir,
}

-- A block that tar has written
abbrev pub Tarred : Block → Type 0
Tarred (header ph) = Unit {0}
Tarred (contents bs) = Unit {0}
Tarred _ = ⊥

-- The file before the call of mkfs
pub record Original : Type 0 where
  pub file : World
  pub tarred : (b : ℕ) → b < file.size → Tarred (file.blocks b)

-- The archive stands in the file as it was, and mkfs believes that it ends where it does.
abbrev pub Whole : Original → Manager → Type 0
Whole o m =
    (m.m_orgsize ≡ o.file.size)
    × (o.file.size ≤ m.m_size)
    × ((b : ℕ) → b < o.file.size → m.world.blocks b ≡ o.file.blocks b)

-- The file has `m_size` blocks, and the super block says how many of them are behind the archive.
abbrev pub Sized : Original → Manager → Type 0
Sized o m =
    (m.world.size ≡ m.m_size)
    × (m.world.capacity ≡ o.file.capacity)
    × (m.m_sb.tarfs_size + o.file.size ≡ m.m_size)
    × (m.m_sb.tarfs_magic ≡ tarsblock_magic)

abbrev pub Kept : Original → Manager → Type 0
Kept o m = Whole o m × Sized o m

-- What is asked of the block numbers of `m_free` and `m_root`
abbrev pub Inodes : Type 1
Inodes = ℕ → ℕ → Type 0

abbrev pub Archived : Original → Inodes → Manager → Type 0
Archived o I m = Kept o m × I m.m_free.i_blkno m.m_root.i_blkno

-- The archive is kept on each way in which a call can end, and `P` holds of what the call returns.
pub data Spares (o : Original) (I : Inodes) {A : Type 0} (P : A → Type 0) : Run A → Type 0 where
  on_ok : {a : A} {m : Manager} → P a → Archived o I m → Spares o I P (ok a m)
  failed : {e : Errno} {m : Manager} → Kept o m → Spares o I P (fail e m)
  on_exit : {m : Manager} → Whole o m → Spares o I P (exited m)
  on_fault : Spares o I P fault
  on_fuel : Spares o I P out_of_fuel

pub on_fail :
    {o : Original} {I : Inodes} {A : Type 0} {P : A → Type 0} {e : Errno} {m : Manager}
    → Archived o I m
    → Spares o I P (fail e m)
on_fail h = failed h.0

abbrev pub Done : {A : Type 0} → A → Type 0
Done a = Unit {0}

module _ {o : Original} {I J : Inodes} {A B : Type 0} {P : A → Type 0} where
  pub Spares-bind :
      {P' : B → Type 0} {r : Run A} {k : A → M B}
      → Spares o I P r
      → ((a : A) (m : Manager) → P a → Archived o I m → Spares o J P' (k a m))
      → Spares o J P' (and_then r k)
  Spares-bind (on_ok p h) next = next _ _ p h
  Spares-bind (failed h) next = failed h
  Spares-bind (on_exit h) next = on_exit h
  Spares-bind on_fault next = on_fault
  Spares-bind on_fuel next = on_fuel

pub Spares-if :
    {o : Original} {I : Inodes} {A : Type 0} {P : A → Type 0} (b : Bool) (r s : Run A)
    → Spares o I P r
    → Spares o I P s
    → Spares o I P (if b then r else s)
Spares-if true r s hr hs = hr
Spares-if false r s hr hs = hs

pub Spares-choice :
    {o : Original} {I : Inodes} {A : Type 0} {P : A → Type 0} (b : Bool) (r s : M A) (m : Manager)
    → Spares o I P (r m)
    → Spares o I P (s m)
    → Spares o I P ((if b then r else s) m)
Spares-choice true r s m hr hs = hr
Spares-choice false r s m hr hs = hs

pub Spares-option :
    {o : Original} {I : Inodes} {A B : Type 0} {P : B → Type 0} (x : Option A) (r : Run B)
    (s : A → Run B)
    → Spares o I P r
    → ((a : A) → Spares o I P (s a))
    → Spares o I P (elim x [ none ↦ r | some a ↦ s a ])
Spares-option none r s hr hs = hr
Spares-option (some a) r s hr hs = hs a

pub store-before : (f : ℕ → Block) (k : ℕ) (xs : List Block) (b : ℕ) → b < k → store f k xs b ≡ f b
unfolding store
store-before f k [] b h = refl
store-before f k (x ∷ xs) b h =
    rw (store, ne→== b k (omega arith)) (store-before f (k + 1) xs b (omega arith))

pub size_grown :
    (size blks end : ℕ)
    → size ≡ blks
    → ltb blks end ≡ true
    → (if ltb size end then end else size) ≡ end
size_grown size blks end h d = ground arith

pub size_same :
    (size blks end : ℕ)
    → size ≡ blks
    → ltb blks end ≡ false
    → (if ltb size end then end else size) ≡ blks
size_same size blks end h d = ground arith

pub tarfs_size_grown :
    (n org blks blkno len : ℕ)
    → org ≡ n
    → n ≤ blks
    → ltb blks (add64 blkno len) ≡ true
    → (add64 blkno len + 2 ^ 64 - org) % 2 ^ 64 + n ≡ add64 blkno len
tarfs_size_grown n org blks blkno len e le d = ground arith

pub not_tarred : (o : Original) (blkno : ℕ) → ¬ (blkno < o.file.size) → o.file.size ≤ blkno
not_tarred o blkno outside = elim (Bool-cases (ltb blkno o.file.size)) [
  | inl lt ↦ absurd (outside (ground arith))
  | inr ge ↦ ground arith
]

module _ (o : Original) (I : Inodes) (m : Manager) (h : Archived o I m) where
  pub do_rollback-Spares : {A : Type 0} {P : A → Type 0} → Spares o I P (do_rollback {A = A} m)
  unfolding do_rollback
  do_rollback-Spares = on_exit h.0.0

  pub write_data-Spares :
      (p : List Block) (blkno : ℕ) → o.file.size ≤ blkno → Spares o I Done (write_data p blkno m)
  unfolding write_data do_rollback
  write_data-Spares p blkno behind =
      let kept : (b : ℕ) → b < o.file.size → store m.world.blocks blkno p b ≡ o.file.blocks b =
        λ b i. store-before m.world.blocks blkno p b (omega arith) ∙ h.0.0.2 b i in
      elim (Bool-cases (ltb m.world.capacity (blkno + length p))) [
        | inl c ↦
            rw (write_data, c, do_rollback)
              (on_exit (
                h.0.0.0,
                h.0.0.1,
                λ b i.
                    store-before m.world.blocks blkno (take (m.world.capacity - blkno) p) b
                      (omega arith)
                    ∙ h.0.0.2 b i,
              ))
        | inr c ↦ elim (Bool-cases (ltb m.m_size (add64 blkno (length p)))) [
          | inl d ↦
              rw (write_data, c, d)
                (on_ok tt (
                  (
                    (h.0.0.0, ground arith, kept),
                    (
                      size_grown m.world.size m.m_size (add64 blkno (length p)) h.0.1.0 d,
                      h.0.1.1,
                      tarfs_size_grown o.file.size m.m_orgsize m.m_size blkno (length p) h.0.0.0
                          h.0.0.1 d,
                      h.0.1.3,
                    ),
                  ),
                  h.1,
                ))
          | inr d ↦
              rw (write_data, c, d)
                (on_ok tt (
                  (
                    (h.0.0.0, h.0.0.1, kept),
                    (
                      size_same m.world.size m.m_size (add64 blkno (length p)) h.0.1.0 d,
                      h.0.1.1,
                      h.0.1.2,
                      h.0.1.3,
                    ),
                  ),
                  h.1,
                ))
        ]
      ]

  pub read_data-Spares :
      (blkno : ℕ) → Spares o I (λ b. blkno < o.file.size → Tarred b) (read_data blkno m)
  unfolding read_data
  read_data-Spares blkno = elim (Bool-cases (ltb m.world.size (blkno + 1))) [
    | inl c ↦ rw (read_data, c) do_rollback-Spares
    | inr c ↦
        rw (read_data, c) (on_ok (λ i. subst Tarred (sym (h.0.0.2 blkno i)) (o.tarred blkno i)) h)
  ]

  -- A block that is read as metadata is not one of the archive.
  module _ (blkno : ℕ) where
    pub as_free-Spares :
        (b : Block)
        → (blkno < o.file.size → Tarred b)
        → Spares o I (λ d. o.file.size ≤ blkno) (as_free b m)
    unfolding as_free
    as_free-Spares (free_data d) t = on_ok (not_tarred o blkno t) h
    as_free-Spares _ t = on_fault

    pub as_dinode-Spares :
        (b : Block)
        → (blkno < o.file.size → Tarred b)
        → Spares o I (λ d. o.file.size ≤ blkno) (as_dinode b m)
    unfolding as_dinode
    as_dinode-Spares (dinode d) t = on_ok (not_tarred o blkno t) h
    as_dinode-Spares _ t = on_fault

    pub as_ind_ext-Spares :
        (b : Block)
        → (blkno < o.file.size → Tarred b)
        → Spares o I (λ x. o.file.size ≤ blkno) (as_ind_ext b m)
    unfolding as_ind_ext
    as_ind_ext-Spares (ind_ext x) t = on_ok (not_tarred o blkno t) h
    as_ind_ext-Spares _ t = on_fault

    pub as_dir-Spares :
        (b : Block)
        → (blkno < o.file.size → Tarred b)
        → Spares o I (λ es. o.file.size ≤ blkno) (as_dir b m)
    unfolding as_dir
    as_dir-Spares (dir_data es) t = on_ok (not_tarred o blkno t) h
    as_dir-Spares _ t = on_fault

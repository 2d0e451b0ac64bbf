-- ===== src/Maker/Sealed.antt =====
-- What the C++ mkfs leaves behind the archive: the file ends with the super block, which counts the blocks
-- behind the archive, itself among them.
use tarfs.Base.{
  ℕ, ◌+◌, ◌-◌, ◌^◌, ◌<◌, ◌≡◌, subst, ap, ◌∙◌, Bool, true, false, inl, inr, Bool-cases, ltb, add64,
  arith,
}
use tarfs.Manager.{World, store}
use tarfs.Manager.Image.{IsSealed, grown_end, grown_size, update-here, update-other}
use tarfs.Manager.Archive.{tarfs_size_grown, Tarred, Original, Inodes, store-before}
use tarfs.Maker.{Maker, Run, ok, exited, fault, out_of_fuel, M, and_then, rollback, grow_to, pwrite}
use tarfs.Maker.Main.{write_sblock, complete, is_fresh, new_maker, mkfs_tarfs}
use tarfs.Maker.Archive.{Kept, IsRestored, Archived, Spares}
use tarfs.Maker.Archive.Main.{
  Both, AnyInodes, new_maker-Archived, make_root-Spares, add_files-Spares,
}
use tarfs.Maker.Archive.Made.{sync-Spares}

pub data Seals (w : World) : Run (Unit {0}) → Type 0 where
  on_ok : {s : Maker} → IsSealed w s.world s.sb 0 → s.sb.tarfs_free ≡ w.size → Seals w (ok tt s)
  on_exit : {s : Maker} → IsRestored w s.world → Seals w (exited s)
  on_fault : Seals w fault
  on_fuel : Seals w out_of_fuel

Seals-bind :
    {A : Type 0} {o : Original} {I : Inodes} {P : A → Type 0} {r : Run A} {k : A → M (Unit {0})}
    → Spares o I P r
    → ((a : A) (s : Maker) → P a → Archived o I s → Seals o.file (k a s))
    → Seals o.file (and_then r k)
Seals-bind (Spares.on_ok p h) next = next _ _ p h
Seals-bind (Spares.on_exit h) next = on_exit h
Seals-bind Spares.on_fault next = on_fault
Seals-bind Spares.on_fuel next = on_fuel

no_wrap :
    (blks capacity room : ℕ)
    → capacity ≡ room
    → room < 2 ^ 64
    → ltb blks (add64 blks 1) ≡ false
    → ltb capacity (blks + 1) ≡ false
    → ⊥
no_wrap blks capacity room e bounded d c = ground arith

module _ (o : Original) (bounded : o.file.capacity < 2 ^ 64) where
  write_sblock-Seals : (s : Maker) → Kept o s → Seals o.file (write_sblock s)
  unfolding write_sblock pwrite rollback grow_to store
  write_sblock-Seals s h = elim (Bool-cases (ltb s.blks (add64 s.blks 1))) [
    | inl d ↦ elim (Bool-cases (ltb s.world.capacity (s.blks + 1))) [
      | inl c ↦
          rw (d, c)
            (on_exit (h.0, λ b i. store-before s.world.blocks s.blks _ b (omega arith) ∙ h.2 b i))
      | inr c ↦
          rw (d, c)
            (on_ok
              (let size =
                  grown_size s.world.size s.blks s.world.capacity o.file.capacity h.3.0 h.3.1
                    bounded c in
                record {
                  kept = λ b i. update-other s.world.blocks s.blks _ b (omega arith) ∙ h.2 b i;
                  counted = omega (
                    arith,
                    tarfs_size_grown o.file.size s.orgblks s.blks s.blks 1 h.0 h.1 d,
                    grown_end s.blks s.world.capacity o.file.capacity h.3.1 bounded c,
                    size,
                  );
                  grown = rw size (omega arith);
                  small = rw size (ground arith);
                  fits = h.3.1;
                  last = update-here s.world.blocks s.blks _ _ (ap (λ n. n - 1) size ∙ omega arith);
                  magic = h.3.3;
                })
              h.3.4)
    ]
    | inr d ↦ elim (Bool-cases (ltb s.world.capacity (s.blks + 1))) [
      | inl c ↦
          rw (d, c)
            (on_exit (h.0, λ b i. store-before s.world.blocks s.blks _ b (omega arith) ∙ h.2 b i))
      | inr c ↦ absurd (no_wrap s.blks s.world.capacity o.file.capacity h.3.1 bounded d c)
    ]
  ]

  complete-Seals : (s : Maker) → Archived o (Both o) s → Seals o.file (complete s)
  unfolding complete
  complete-Seals s h = Seals-bind (sync-Spares o (Both o) s.root _ h h.1.1) λ u s1 d h1.
      Seals-bind (sync-Spares o (Both o) s.free_inode s1 h1 h.1.0)
        λ v s2 e h2. write_sblock-Seals s2 h2.0

-- On each way in which the C++ mkfs ends
pub mkfs_tarfs-Seals :
    (w : World) (fsize : ℕ) (unset : Bool)
    → ((b : ℕ) → b < w.size → Tarred (w.blocks b))
    → w.capacity < 2 ^ 64
    → is_fresh w ≡ true
    → Seals w (mkfs_tarfs w fsize unset)
unfolding mkfs_tarfs
mkfs_tarfs-Seals w fsize unset tarred bounded fresh =
    let o : Original = record { file = w; tarred = tarred } in
    let start : Archived o AnyInodes (new_maker w fsize unset) = new_maker-Archived o fsize unset in
    rw fresh (
      Seals-bind (make_root-Spares o (new_maker w fsize unset) start) λ u s1 d h1.
        Seals-bind (add_files-Spares o (w.size + 1) 0 s1 h1)
          λ v s2 e h2. complete-Seals o bounded s2 h2)

Seals-ok :
    (w : World) (s : Maker) (r : Run (Unit {0}))
    → Seals w r
    → r ≡ ok tt s
    → IsSealed w s.world s.sb 0 × (s.sb.tarfs_free ≡ w.size)
Seals-ok w s (ok tt s') (on_ok h free) e =
    let same : s' ≡ s = cc in
    subst (λ t. IsSealed w t.world t.sb 0 × (t.sb.tarfs_free ≡ w.size)) same (h, free)
Seals-ok w s (exited s') h e = absurd cc
Seals-ok w s fault h e = absurd cc
Seals-ok w s out_of_fuel h e = absurd cc

-- On a fresh file of headers and data that tar has written, let the C++ mkfs return, and let it have read no
-- block as a struct that the block does not hold. Then the file is the archive as it was with metadata behind
-- it: the last block is the super block, whose `tarfs_size` is the number of all blocks behind the archive,
-- and whose `tarfs_free` the first of them.
pub mkfs_tarfs-IsSealed :
    (w : World) (fsize : ℕ) (unset : Bool) (s : Maker)
    → ((b : ℕ) → b < w.size → Tarred (w.blocks b))
    → w.capacity < 2 ^ 64
    → is_fresh w ≡ true
    → mkfs_tarfs w fsize unset ≡ ok tt s
    → IsSealed w s.world s.sb 0 × (s.sb.tarfs_free ≡ w.size)
mkfs_tarfs-IsSealed w fsize unset s tarred bounded fresh made =
    Seals-ok w s (mkfs_tarfs w fsize unset) (mkfs_tarfs-Seals w fsize unset tarred bounded fresh)
      made

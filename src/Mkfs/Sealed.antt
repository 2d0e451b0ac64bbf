-- ===== src/Mkfs/Sealed.antt =====
-- What the mkfs in C leaves behind the archive: the file ends with the super block, which counts the blocks
-- behind the archive, but not itself: writeData writes it before it sets `tarfs_size`.
use tarfs.Base.{
  ℕ, ◌+◌, ◌-◌, ◌^◌, ◌<◌, ◌≡◌, ap, ◌∙◌, subst, sym, false, inl, inr, Bool-cases, ltb, add64, arith,
}
use tarfs.Meta.{Sblock, tarsblock_flag_ok}
use tarfs.Manager.{
  World, Manager, Errno, Run, ok, fail, exited, fault, out_of_fuel, M, and_then, write_data,
  do_rollback, store,
}
use tarfs.Manager.Archive.{Tarred, Original, Inodes, Kept, Archived, Spares, Done}
use tarfs.Manager.Image.{IsSealed, grown_size, update-here, update-other}
use tarfs.Mkfs.{init_mkfs, finish_sblock, after_init, mkfs}
use tarfs.Mkfs.Archive.{
  BothBehind, init_mkfs-Spares, parse_tar_loop-Spares, rollback_on_error-Spares,
}

-- The file `image` is the archive with metadata and a super block that counts them but for `uncounted`.
pub data Counts (w image : World) (uncounted : ℕ) : Type 0 where
  counts : (sb : Sblock) → IsSealed w image sb uncounted → Counts w image uncounted

-- Where the call returns 0, the file is such an image.
data Seals (w : World) : Run (Unit {0}) → Type 0 where
  on_ok : {m : Manager} → Counts w m.world 1 → Seals w (ok tt m)
  failed : {e : Errno} {m : Manager} → Seals w (fail e m)
  on_exit : {m : Manager} → Seals w (exited m)
  on_fault : Seals w fault
  on_fuel : Seals w out_of_fuel

Seals-bind :
    {A : Type 0} {o : Original} {I : Inodes} {P : A → Type 0} {r : Run A} {k : A → M (Unit {0})}
    → Spares o I P r
    → ((a : A) (m : Manager) → P a → Archived o I m → Seals o.file (k a m))
    → Seals o.file (and_then r k)
Seals-bind (Spares.on_ok p h) next = next _ _ p h
Seals-bind (Spares.failed h) next = failed
Seals-bind (Spares.on_exit h) next = on_exit
Seals-bind Spares.on_fault next = on_fault
Seals-bind Spares.on_fuel next = on_fuel

no_wrap :
    (blks capacity room : ℕ)
    → capacity ≡ room
    → room < 2 ^ 64
    → ltb blks (add64 blks 1) ≡ false
    → ltb capacity (blks + 1) ≡ false
    → ⊥
no_wrap blks capacity room e bounded d c = ground arith

module _ (o : Original) (bounded : o.file.capacity < 2 ^ 64) where
  finish_sblock-Seals : (m : Manager) → Kept o m → Seals o.file (finish_sblock m)
  unfolding write_data do_rollback store
  finish_sblock-Seals m h = elim (Bool-cases (ltb m.world.capacity (m.m_size + 1))) [
    | inl c ↦ rw (write_data, c) on_exit
    | inr c ↦ elim (Bool-cases (ltb m.m_size (add64 m.m_size 1))) [
      | inl d ↦
          let size =
            grown_size m.world.size m.m_size m.world.capacity o.file.capacity h.1.0 h.1.1 bounded
              c in
          rw (write_data, c, d)
            (on_ok (
              counts (record m.m_sb { tarfs_flags = tarsblock_flag_ok })
                record {
                  kept = λ b i.
                      update-other m.world.blocks m.m_size _ b (omega (arith, h.0.1)) ∙ h.0.2 b i;
                  counted = omega (arith, h.1.2, size);
                  grown = rw size (omega (arith, h.0.1));
                  small = rw size (ground arith);
                  fits = h.1.1;
                  last =
                      update-here m.world.blocks m.m_size _ _ (ap (λ n. n - 1) size ∙ omega arith);
                  magic = h.1.3;
                }))
      | inr d ↦ absurd (no_wrap m.m_size m.world.capacity o.file.capacity h.1.1 bounded d c)
    ]
  ]

  after_init-Seals :
      (m : Manager) → Archived o (BothBehind o) m → Seals o.file (after_init (ok tt m))
  unfolding after_init
  after_init-Seals m h =
      Seals-bind (rollback_on_error-Spares o _ (parse_tar_loop-Spares o (m.world.size + 1) 0 m h))
        λ u m1 e h1. finish_sblock-Seals m1 h1.0

Seals-ok :
    (w : World) (r : Run (Unit {0})) (m : Manager) → Seals w r → r ≡ ok tt m → Counts w m.world 1
Seals-ok w (ok tt m') m (on_ok h) e =
    let same : m' ≡ m = cc in subst (λ t. Counts w t.world 1) same h
Seals-ok w (fail x m') m h e = absurd cc
Seals-ok w (exited m') m h e = absurd cc
Seals-ok w fault m h e = absurd cc
Seals-ok w out_of_fuel m h e = absurd cc

Archived-ok :
    (o : Original) (r : Run (Unit {0})) (m : Manager)
    → Spares o (BothBehind o) Done r
    → r ≡ ok tt m
    → Archived o (BothBehind o) m
Archived-ok o (ok tt m') m (Spares.on_ok p h) e =
    let same : m' ≡ m = cc in subst (Archived o (BothBehind o)) same h
Archived-ok o (fail x m') m h e = absurd cc
Archived-ok o (exited m') m h e = absurd cc
Archived-ok o fault m h e = absurd cc
Archived-ok o out_of_fuel m h e = absurd cc

-- On a file of headers and data that tar has written, let init_mkfs return 0, and mkfs too, having read no
-- block as a struct that the block does not hold. Then the file is the archive as it was with metadata behind
-- it, and its last block is the super block; `tarfs_size` there is the number of the blocks behind the archive
-- without the super block itself.
pub mkfs-Counts :
    (w : World) (m0 m : Manager)
    → ((b : ℕ) → b < w.size → Tarred (w.blocks b))
    → w.capacity < 2 ^ 64
    → init_mkfs w ≡ ok tt m0
    → mkfs w ≡ ok tt m
    → Counts w m.world 1
unfolding mkfs
mkfs-Counts w m0 m tarred bounded init made =
    let o : Original = record { file = w; tarred = tarred } in
    Seals-ok w (after_init (init_mkfs w)) m
      (subst (λ r. Seals w (after_init r)) (sym init)
        (after_init-Seals o bounded m0 (Archived-ok o (init_mkfs w) m0 (init_mkfs-Spares o) init)))
      made

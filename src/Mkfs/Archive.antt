-- ===== src/Mkfs/Archive.antt =====
-- mkfs writes to no block of the archive.
use tarfs.Base.{ℕ, zero, suc, ◌+◌, ◌≤◌, ◌<◌, ◌≡◌, refl, Option, none, some, arith, length, add64}
use tarfs.Meta.{Bytes, PosixHeader, tarfs_ifdir}
use tarfs.Manager.{
  Block, header, World, Incore, Manager, einval, enomem, eexist, enoent, other, Run, ok, fail,
  exited, fault, out_of_fuel, M, do_rollback,
}
use tarfs.Manager.Archive.{
  Tarred, Original, Inodes, Archived, Spares, on_ok, failed, on_fail, on_exit, on_fault, on_fuel,
  Done, Spares-bind, Spares-choice, write_data-Spares,
}
use tarfs.Inode.Archive.{Behind, FreeBehind, alloc_free_dinode-Spares, alloc_dinode-Spares}
use tarfs.Directory.Archive.{tarfs_create-Spares}
use tarfs.Mkfs.{
  pread, get_fname, Parent, root, copy, parent_of, keep_parent, mk_file_path_loop, mk_file_path,
  Parsed, parsed_inode, data_blocks, unnamed, getph, parse_header, parse_tar_loop, new_manager,
  standby, incomplete, unreadable, archive_end, last_block, make_inodes, init_mkfs,
  rollback_on_error, finish_sblock, after_init, mkfs,
}

-- `m_free` and `m_root` are not in the archive.
abbrev pub BothBehind : Original → Inodes
BothBehind o f r = (o.file.size ≤ f) × (o.file.size ≤ r)

abbrev pub AnyInodes : Inodes
AnyInodes f r = Unit {0}

module _ {o : Original} {I : Inodes} {A : Type 0} {P : A → Type 0} where
  Spares-parsed :
      (p : Option Parsed) (f : M A) (g : Parsed → M A) (m : Manager)
      → Spares o I P (f m)
      → ((q : Parsed) → Spares o I P (g q m))
      → Spares o I P ((elim p as (λ x. M A) [ none ↦ f | some q ↦ g q ]) m)
  Spares-parsed none f g m hf hg = hf
  Spares-parsed (some q) f g m hf hg = hg q

  Spares-header :
      (p : Option Block) (f : M A) (g : PosixHeader → M A) (k : M A) (m : Manager)
      → Spares o I P (f m)
      → ((ph : PosixHeader) → Spares o I P (g ph m))
      → Spares o I P (k m)
      → Spares o I P ((elim p as (λ x. M A) [ none ↦ f | some (header ph) ↦ g ph | some _ ↦ k ]) m)
  Spares-header none f g k m hf hg hk = hf
  Spares-header (some (header ph)) f g k m hf hg hk = hg ph
  Spares-header (some _) f g k m hf hg hk = hk

module _ (o : Original) where
  abbrev ParentBehind : Parent → Type 0
  ParentBehind root = Unit {0}
  ParentBehind (copy p) = Behind o p

  known : (f r : ℕ) → BothBehind o f r → o.file.size ≤ f
  known f r h = h.0

  parent_of-Behind :
      (m : Manager) (parent : Parent)
      → Archived o (BothBehind o) m
      → ParentBehind parent
      → Behind o (parent_of m parent)
  parent_of-Behind m root h behind = h.1.1
  parent_of-Behind m (copy p) h behind = behind

  keep_parent-Spares :
      (parent : Parent) (p : Incore) (m : Manager)
      → Archived o (BothBehind o) m
      → Behind o p
      → Spares o (BothBehind o) Done (keep_parent parent p m)
  keep_parent-Spares root p m h behind = on_ok tt (h.0, (h.1.0, behind))
  keep_parent-Spares (copy q) p m h behind = on_ok tt h

  mk_file_path_loop-Spares :
      (k : ℕ) (path : Bytes) (parent : Parent) (icp : Incore) (m : Manager)
      → Archived o (BothBehind o) m
      → ParentBehind parent
      → Spares o (BothBehind o) Done (mk_file_path_loop k path parent icp m)
  unfolding mk_file_path_loop
  mk_file_path_loop-Spares zero path parent icp m h behind = on_fuel
  mk_file_path_loop-Spares (suc k) path parent icp m h behind =
      Spares-bind
        (tarfs_create-Spares o (BothBehind o) known (parent_of m parent) _ _ m h
          (parent_of-Behind m parent h behind))
        λ (p, child) m1 new h1. Spares-bind (keep_parent-Spares parent p m1 h1 new.0) λ u m2 d h2.
          Spares-choice (get_fname path).is_last _ _ m2 (on_ok tt h2)
            (mk_file_path_loop-Spares k (get_fname path).rest (copy child) icp m2 h2 new.1)

  parse_header-Spares :
      (w : World) (tarblk : ℕ) (ph : PosixHeader) (rest : ℕ → M (Unit {0})) (m : Manager)
      → Archived o (BothBehind o) m
      → ((b : ℕ) (m' : Manager)
          → Archived o (BothBehind o) m'
          → Spares o (BothBehind o) Done (rest b m'))
      → Spares o (BothBehind o) Done (parse_header w tarblk ph rest m)
  unfolding parse_header mk_file_path
  parse_header-Spares w tarblk ph rest m h next = Spares-choice (unnamed ph) _ _ m (on_ok tt h) (
      Spares-parsed (getph w tarblk ph) _ _ m (on_ok tt h) λ p.
        Spares-bind
          (mk_file_path_loop-Spares (length p.path + 1) p.path root
            (parsed_inode p (data_blocks p.ph)) m h tt)
          λ ic m1 d h1. next (add64 p.tarblk (data_blocks p.ph + 1)) m1 h1)

  pub parse_tar_loop-Spares :
      (k tarblk : ℕ) (m : Manager)
      → Archived o (BothBehind o) m
      → Spares o (BothBehind o) Done (parse_tar_loop k tarblk m)
  unfolding parse_tar_loop
  parse_tar_loop-Spares zero tarblk m h = on_fuel
  parse_tar_loop-Spares (suc k) tarblk m h =
      Spares-header (pread tarblk m.world) (fail other)
        (λ ph. parse_header m.world tarblk ph (parse_tar_loop k)) (λ m'. fault) m (on_fail h)
        (λ ph.
          parse_header-Spares m.world tarblk ph (parse_tar_loop k) m h
            λ b m' h'. parse_tar_loop-Spares k b m' h')
        on_fault

  make_inodes-Spares :
      (m : Manager) → Archived o AnyInodes m → Spares o (BothBehind o) Done (make_inodes m)
  unfolding make_inodes
  make_inodes-Spares m h = Spares-bind (alloc_free_dinode-Spares o AnyInodes m h) λ u m1 d h1.
      Spares-bind (alloc_dinode-Spares o (FreeBehind o) (λ f r e. e) m1.m_root tarfs_ifdir m1 h1)
        λ r m2 behind h2. on_ok tt (h2.0, (h2.1, behind))

  pub rollback_on_error-Spares :
      (r : Run (Unit {0}))
      → Spares o (BothBehind o) Done r
      → Spares o (BothBehind o) Done (rollback_on_error r)
  unfolding rollback_on_error do_rollback
  rollback_on_error-Spares (ok a m) (on_ok d h) = on_ok d h
  rollback_on_error-Spares (fail e m) (failed h) = on_exit h.0
  rollback_on_error-Spares (exited m) (on_exit h) = on_exit h
  rollback_on_error-Spares fault on_fault = on_fault
  rollback_on_error-Spares out_of_fuel on_fuel = on_fuel

  finish_sblock-Spares :
      (m : Manager) → Archived o (BothBehind o) m → Spares o AnyInodes Done (finish_sblock m)
  finish_sblock-Spares m h = write_data-Spares o AnyInodes _ (h.0, tt) _ m.m_size h.0.0.1

  after_init-Spares :
      (r : Run (Unit {0})) → Spares o (BothBehind o) Done r → Spares o AnyInodes Done (after_init r)
  unfolding after_init
  after_init-Spares (ok a m) (on_ok d h) =
      Spares-bind (rollback_on_error-Spares _ (parse_tar_loop-Spares (m.world.size + 1) 0 m h))
        λ u m1 e h1. finish_sblock-Spares m1 h1
  after_init-Spares (fail eexist m) (failed h) = on_ok tt (h, tt)
  after_init-Spares (fail einval m) (failed h) = failed h
  after_init-Spares (fail enomem m) (failed h) = failed h
  after_init-Spares (fail enoent m) (failed h) = failed h
  after_init-Spares (fail other m) (failed h) = failed h
  after_init-Spares (exited m) (on_exit h) = on_exit h
  after_init-Spares fault on_fault = on_fault
  after_init-Spares out_of_fuel on_fuel = on_fuel

  new_manager-Archived : Archived o AnyInodes (new_manager o.file)
  new_manager-Archived = (((refl, omega arith, λ b h. refl), (refl, refl, omega arith, refl)), tt)

  pub init_mkfs-Spares : Spares o (BothBehind o) Done (init_mkfs o.file)
  unfolding init_mkfs
  init_mkfs-Spares =
      elim (last_block o.file)
        as (λ l. Spares o (BothBehind o) Done (
          (elim l as (λ x. Run (Unit {0})) [
            | standby ↦ fail eexist (new_manager o.file)
            | incomplete ↦ fault
            | unreadable ↦ fault
            | archive_end ↦ make_inodes (new_manager o.file)
          ]))) [
            | standby ↦ failed new_manager-Archived.0
            | incomplete ↦ on_fault
            | unreadable ↦ on_fault
            | archive_end ↦ make_inodes-Spares (new_manager o.file) new_manager-Archived
          ]

-- On each way in which mkfs ends
pub mkfs-Spares :
    (w : World) (tarred : (b : ℕ) → b < w.size → Tarred (w.blocks b))
    → Spares (record { file = w; tarred = tarred }) AnyInodes Done (mkfs w)
unfolding mkfs
mkfs-Spares w tarred =
    let o : Original = record { file = w; tarred = tarred } in
    after_init-Spares o (init_mkfs w) (init_mkfs-Spares o)

-- The manager at the end of a run that returns, with an error or without one, or exits
unfoldable pub end_state {ℓ} : {A : Type ℓ} → Run A → Option Manager
end_state (ok a m) = some m
end_state (fail e m) = some m
end_state (exited m) = some m
end_state fault = none
end_state out_of_fuel = none

-- The blocks of the archive `w` are in `w'` what they were.
abbrev pub IsSpared : World → World → Type 0
IsSpared w w' = (b : ℕ) → b < w.size → w'.blocks b ≡ w.blocks b

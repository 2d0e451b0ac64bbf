-- ===== src/Maker/Archive/Main.antt =====
-- The C++ mkfs writes to no block of the archive.
use tarfs.Base.{
  add64, ℕ, zero, suc, ◌+◌, ◌≤◌, ◌<◌, ◌≡◌, refl, subst, sym, Bool, Option, none, some, List, [],
  ◌∷◌, ◌==◌, arith,
}
use tarfs.Meta.{Bytes, tarfs_ifdir, tarfs_root_ino}
use tarfs.Manager.{sblock, World}
use tarfs.Manager.Archive.{Tarred, Original, Inodes}
use tarfs.Maker.{grow_to, Inode, Maker, Run, ok, exited, fault, out_of_fuel}
use tarfs.Maker.Files.{File, set_file}
use tarfs.Maker.Parser.{get_file}
use tarfs.Maker.Main.{
  Parent, at_root, object, dir_of, leave_dir, next_dir, last_file, add_names, add, write_sblock,
  complete, new_maker, is_fresh, make_root, add_files, mkfs_tarfs,
}
use tarfs.Maker.Archive.{
  Archived, Spares, on_ok, on_fault, on_fuel, Done, Spares-bind, Spares-if, Spares-choice,
  Spares-option, rollback-Spares, grown-Spares, IsRestored,
}
use tarfs.Maker.Archive.Made.{
  Behind, FreeBehind, init_factory-Spares, alloc_inode-Spares, sync-Spares,
}
use tarfs.Maker.Archive.Dirs.{MaybeBehind, PairBehind, lookup-Spares, mkdir-Spares, create-Spares}

-- The free inode and the root are not in the archive.
abbrev pub BothBehind : Original → Inodes
BothBehind o f r = (o.file.size ≤ f) × (o.file.size ≤ r)

abbrev pub AnyInodes : Inodes
AnyInodes f r = Unit {0}

module _ (o : Original) where
  abbrev pub Both : Inodes
  Both = BothBehind o

  abbrev ParentBehind : Parent → Type 0
  ParentBehind at_root = Unit {0}
  ParentBehind (object d) = Behind o d

  known : (f r : ℕ) → Both f r → o.file.size ≤ f
  known f r h = h.0

  settable : (f f' r : ℕ) → o.file.size ≤ f' → Both f r → Both f' r
  settable f f' r behind h = (behind, h.1)

  dir_of-Behind :
      (parent : Parent) (s : Maker)
      → Archived o Both s
      → ParentBehind parent
      → Behind o (dir_of parent s)
  dir_of-Behind at_root s h behind = h.1.1
  dir_of-Behind (object d) s h behind = behind

  leave_dir-Spares :
      (parent : Parent) (d : Inode) (s : Maker)
      → Archived o Both s
      → Behind o d
      → Spares o Both Done (leave_dir parent d s)
  unfolding leave_dir
  leave_dir-Spares at_root d s h behind = on_ok tt (h.0, (h.1.0, behind))
  leave_dir-Spares (object d') d s h behind = sync-Spares o Both d s h behind

  next_dir-Spares :
      (dir : Inode) (name : Bytes) (inode : Option Inode) (s : Maker)
      → Archived o Both s
      → MaybeBehind o inode
      → Spares o Both (PairBehind o dir) (next_dir dir name inode s)
  unfolding next_dir
  next_dir-Spares dir name none s h behind = mkdir-Spares o Both known settable dir name s h
  next_dir-Spares dir name (some inode) s h behind =
      Spares-choice (inode.ftype == tarfs_ifdir) _ _ s (on_ok (refl, behind) h)
        (rollback-Spares o Both s h)

  last_file-Spares :
      (dir : Inode) (name : Bytes) (file : File) (inode : Option Inode) (s : Maker)
      → Archived o Both s
      → MaybeBehind o inode
      → Spares o Both (PairBehind o dir) (last_file dir name file inode s)
  unfolding last_file set_file
  last_file-Spares dir name file none s h behind =
      create-Spares o Both known settable dir name file s h
  last_file-Spares dir name file (some inode) s h behind = on_ok (refl, behind) h

  moved : (d d' : Inode) → d'.blkno ≡ d.blkno → Behind o d → Behind o d'
  moved d d' same behind = subst (λ b. o.file.size ≤ b) (sym same) behind

  add_names-Spares :
      (names : List Bytes) (parent : Parent) (file : File) (s : Maker)
      → Archived o Both s
      → ParentBehind parent
      → Spares o Both Done (add_names names parent file s)
  unfolding add_names
  add_names-Spares [] parent file s h behind = on_fault
  add_names-Spares (name ∷ []) parent file s h behind =
      let dir = dir_of parent s in
      Spares-bind (lookup-Spares o Both dir name s h) λ inode s1 mb h1.
        Spares-bind (last_file-Spares dir name file inode s1 h1 mb) λ (dir', new) s2 pb h2.
          Spares-bind (sync-Spares o Both new s2 h2 pb.1) λ u s3 d h3.
            leave_dir-Spares parent dir' s3 h3
              (moved dir dir' pb.0 (dir_of-Behind parent s h behind))
  add_names-Spares (name ∷ n ∷ names) parent file s h behind =
      let dir = dir_of parent s in
      Spares-bind (lookup-Spares o Both dir name s h) λ inode s1 mb h1.
        Spares-bind (next_dir-Spares dir name inode s1 h1 mb) λ (dir', next) s2 pb h2.
          Spares-bind (sync-Spares o Both next s2 h2 pb.1) λ u s3 d h3.
            Spares-bind
              (leave_dir-Spares parent dir' s3 h3
                (moved dir dir' pb.0 (dir_of-Behind parent s h behind)))
              λ v s4 e h4. add_names-Spares (n ∷ names) (object next) file s4 h4 pb.1

  pub add_files-Spares :
      (k curoff : ℕ) (s : Maker) → Archived o Both s → Spares o Both Done (add_files k curoff s)
  unfolding add_files add
  add_files-Spares zero curoff s h = on_fuel
  add_files-Spares (suc k) curoff s h =
      Spares-option (get_file s.world curoff) _ _ s (on_ok tt h) λ (file, next).
        Spares-bind (add_names-Spares file.path at_root file s h tt)
          λ u s1 d h1. add_files-Spares k next s1 h1

  pub make_root-Spares : (s : Maker) → Archived o AnyInodes s → Spares o Both Done (make_root s)
  unfolding make_root
  make_root-Spares s h = Spares-bind (init_factory-Spares o AnyInodes s h) λ u s1 d h1.
      Spares-bind
        (alloc_inode-Spares o (FreeBehind o) (λ f r e. e) (λ f f' r e g. e) tarfs_root_ino
          tarfs_ifdir s1 h1)
        λ root s2 behind h2. on_ok tt (h2.0, (h2.1, behind))

  write_sblock-Spares : (s : Maker) → Archived o Both s → Spares o Both Done (write_sblock s)
  unfolding write_sblock
  write_sblock-Spares s h =
      grown-Spares o Both s h (sblock (grow_to (add64 s.blks 1) s).sb ∷ []) s.blks h.0.1

  pub complete-Spares : (s : Maker) → Archived o Both s → Spares o Both Done (complete s)
  unfolding complete
  complete-Spares s h = Spares-bind (sync-Spares o Both s.root _ h h.1.1) λ u s1 d h1.
      Spares-bind (sync-Spares o Both s.free_inode s1 h1 h.1.0)
        λ v s2 e h2. write_sblock-Spares s2 h2

  forget : {r : Run (Unit {0})} → Spares o Both Done r → Spares o AnyInodes Done r
  forget (on_ok p h) = on_ok tt (h.0, tt)
  forget (Spares.on_exit h) = Spares.on_exit h
  forget on_fault = on_fault
  forget on_fuel = on_fuel

pub new_maker-Archived :
    (o : Original) (fsize : ℕ) (unset : Bool) → Archived o AnyInodes (new_maker o.file fsize unset)
new_maker-Archived o fsize unset =
    ((refl, omega arith, λ b h. refl, (refl, refl, omega arith, refl, refl)), tt)

-- On each way in which the C++ mkfs ends
pub mkfs_tarfs-Spares :
    (w : World) (fsize : ℕ) (unset : Bool) (tarred : (b : ℕ) → b < w.size → Tarred (w.blocks b))
    → Spares (record { file = w; tarred = tarred }) AnyInodes Done (mkfs_tarfs w fsize unset)
unfolding mkfs_tarfs
mkfs_tarfs-Spares w fsize unset tarred =
    let o : Original = record { file = w; tarred = tarred } in
    let fresh = new_maker-Archived o fsize unset in
    Spares-if (is_fresh w) _ _
      (forget o (
        Spares-bind (make_root-Spares o (new_maker w fsize unset) fresh) λ u s1 d h1.
          Spares-bind (add_files-Spares o (w.size + 1) 0 s1 h1)
            λ v s2 e h2. complete-Spares o s2 h2))
      (on_ok tt fresh)

exited-IsRestored :
    (o : Original) (r : Run (Unit {0})) (s : Maker)
    → Spares o AnyInodes Done r
    → r ≡ exited s
    → IsRestored o.file s.world
exited-IsRestored o (ok a s') s (on_ok p h) e = absurd cc
exited-IsRestored o (exited s') s (Spares.on_exit h) e =
    let same : s' ≡ s = cc in subst (λ t. IsRestored o.file t.world) same h
exited-IsRestored o fault s on_fault e = absurd cc
exited-IsRestored o out_of_fuel s on_fuel e = absurd cc

-- Where the C++ mkfs gives up by `exit`, on a file of headers and data that tar has written, and has read no
-- block until then as a struct that the block does not hold, the file is left as it was: its size, and each of
-- its blocks.
pub mkfs_tarfs-IsRestored :
    (w : World) (fsize : ℕ) (unset : Bool) (s : Maker)
    → ((b : ℕ) → b < w.size → Tarred (w.blocks b))
    → mkfs_tarfs w fsize unset ≡ exited s
    → IsRestored w s.world
mkfs_tarfs-IsRestored w fsize unset s tarred e =
    exited-IsRestored (record { file = w; tarred = tarred }) (mkfs_tarfs w fsize unset) s
      (mkfs_tarfs-Spares w fsize unset tarred) e

-- The state at the end of a run that returns or exits
unfoldable pub end_state {ℓ} : {A : Type ℓ} → Run A → Option Maker
end_state (ok a s) = some s
end_state (exited s) = some s
end_state fault = none
end_state out_of_fuel = none

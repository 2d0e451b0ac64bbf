-- ===== src/Mount/Agree.antt =====
-- tarfsmount and checkTarfs read the same image.
use tarfs.Base.{ℕ, ◌==◌, Bool-cases, inl, inr, ◌-◌, ◌≡◌, ap, Option, none, some}
use tarfs.Manager.{Block, sblock, dinode, Manager, World, Run, ok, fail, other, and_then}
use tarfs.Mkfs.{pread}
use tarfs.Check.{zero_manager}
use tarfs.Knl.Super.{MntArg}
use tarfs.Mount.{short_read, read_sblock, read_free, read_root, init, mount_arg}

-- A call that returns with the super block and the free inode of `arg` in its manager
pub data Holds (arg : MntArg) : Run (Unit {0}) → Type 0 where
  holds :
      {m : Manager} → m.m_sb ≡ arg.mnt_sb → m.m_free.i_dinode ≡ arg.mnt_dinode → Holds arg (ok tt m)

abbrev arg_of : Manager → MntArg
arg_of m = record { mnt_sb = m.m_sb; mnt_dinode = m.m_free.i_dinode }

abbrev Hands : MntArg → Manager → Run (Unit {0}) → Type 0
Hands arg m' r = and_then r (λ u s. ok (arg_of s) s) ≡ ok arg m'

ok-Holds : (m m' : Manager) (arg : MntArg) → Hands arg m' (ok tt m) → Holds arg (ok tt m)
ok-Holds m m' arg e =
    let same : arg_of m ≡ arg = cc in holds (ap (λ a. a.mnt_sb) same) (ap (λ a. a.mnt_dinode) same)

short_read-Holds :
    (errno : ℕ) (m m' : Manager) (arg : MntArg)
    → Hands arg m' (short_read errno m)
    → Holds arg (ok tt m)
unfolding short_read
short_read-Holds errno m m' arg e = elim (Bool-cases (errno == 0)) [
  | inl h ↦ ok-Holds m m' arg (rw h at e)
  | inr h ↦ absurd (failed m m' arg (rw h at e))
]
  where
    failed : (m m' : Manager) (arg : MntArg) → fail other m ≡ ok arg m' → ⊥
    failed m m' arg e = cc

root-Holds :
    (errno : ℕ) (b : Option Block) (m m' : Manager) (arg : MntArg)
    → Hands arg m' (read_root errno b m)
    → Holds arg (ok tt m)
unfolding read_root
root-Holds errno none m m' arg e = short_read-Holds errno m m' arg e
root-Holds errno (some (dinode d)) m m' arg e = elim (ok-Holds _ m' arg e) [
  | holds sb free ↦ holds sb free
]
root-Holds errno (some _) m m' arg e = absurd cc

free-Holds :
    (errno : ℕ) (b : Option Block) (m m' : Manager) (arg : MntArg)
    → Hands arg m' (read_free errno b m)
    → Holds arg (tarfs.Check.read_free b m)
unfolding read_free tarfs.Check.read_free
free-Holds errno none m m' arg e = short_read-Holds errno m m' arg e
free-Holds errno (some (dinode d)) m m' arg e =
    elim (root-Holds errno (pread m.m_sb.tarfs_root m.world) _ m' arg e) [
      | holds sb free ↦ holds sb free
    ]
free-Holds errno (some _) m m' arg e = absurd cc

sblock-Holds :
    (errno : ℕ) (b : Option Block) (m m' : Manager) (arg : MntArg)
    → Hands arg m' (read_sblock errno b m)
    → Holds arg (tarfs.Check.read_sblock b m)
unfolding read_sblock tarfs.Check.read_sblock
sblock-Holds errno none m m' arg e = short_read-Holds errno m m' arg e
sblock-Holds errno (some (sblock sb)) m m' arg e =
    free-Holds errno (pread sb.tarfs_free m.world) _ m' arg e
sblock-Holds errno (some _) m m' arg e = absurd cc

-- Where tarfsmount hands an argument to mount(2), the short reads included that init takes for a success
-- because `errno` is 0, checkTarfs returns from `init` on the same image with the same super block and free
-- inode.
pub mount_arg-Holds :
    (w : World) (errno : ℕ) (arg : MntArg) (m : Manager)
    → mount_arg w errno ≡ ok arg m
    → Holds arg (tarfs.Check.init w)
unfolding mount_arg init tarfs.Check.init
mount_arg-Holds w errno arg m e = sblock-Holds errno (pread (w.size - 1) w) (zero_manager w) m arg e

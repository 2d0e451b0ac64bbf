-- ===== src/Mount.antt =====
-- cmd/tarfsmount.c: it reads from the block device what mount(2) hands to the kernel module.
pub mod Agree
use tarfs.Base.{ℕ, ◌-◌, ◌==◌, if◌then◌else◌, Option, none, some}
use tarfs.Meta.{tarfs_root_ino}
use tarfs.Manager.{
  Block, sblock, dinode, Manager, World, Run, ok, fail, fault, other, M, and_then, pure,
}
use tarfs.Mkfs.{pread}
use tarfs.Check.{zero_incore, zero_manager}
use tarfs.Knl.Super.{MntArg}

-- A `pread` that is short: init returns `errno`, which a short read leaves at what an earlier call has set;
-- 0 is a success.
unfoldable pub short_read : (errno : ℕ) → M (Unit {0})
short_read errno m = if errno == 0 then ok tt m else fail other m

-- The `pread` of the root's inode
unfoldable pub read_root : (errno : ℕ) → Option Block → M (Unit {0})
unfolding short_read
read_root errno none m = short_read errno m
read_root errno (some (dinode d)) m = ok tt (record m { m_root = record m.m_root { i_dinode = d } })
read_root errno (some _) m = fault

-- The `pread` of the free inode, and the rest of init
unfoldable pub read_free : (errno : ℕ) → Option Block → M (Unit {0})
unfolding short_read read_root
read_free errno none m = short_read errno m
read_free errno (some (dinode d)) m = read_root errno (pread m.m_sb.tarfs_root m.world) (record m {
  m_free = record m.m_free { i_dinode = d };
  m_root = zero_incore tarfs_root_ino tarfs_root_ino;
})
read_free errno (some _) m = fault

-- The `pread` of the super block, and the rest of init
unfoldable pub read_sblock : (errno : ℕ) → Option Block → M (Unit {0})
unfolding short_read read_free
read_sblock errno none m = short_read errno m
read_sblock errno (some (sblock sb)) m =
    read_free errno (pread sb.tarfs_free m.world)
      (record m { m_sb = sb; m_root = zero_incore 0 tarfs_root_ino })
read_sblock errno (some _) m = fault

-- init. The size of the device is that of the file behind it.
unfoldable pub init : World → (errno : ℕ) → Run (Unit {0})
unfolding read_sblock
init w errno = read_sblock errno (pread (w.size - 1) w) (zero_manager w)

-- What `main` hands to mount(2)
unfoldable pub mount_arg : World → (errno : ℕ) → Run MntArg
unfolding init
mount_arg w errno =
    and_then (init w errno)
      λ u m. pure (record { mnt_sb = m.m_sb; mnt_dinode = m.m_free.i_dinode }) m

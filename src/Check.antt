-- ===== src/Check.antt =====
-- cmd/checkTarfs.c: it prints the super block, an inode and, if that is a directory, its entries. A call
-- returns what it prints. The loop of tarfs_readdir loads a block as that of tarfs_lookup does.
pub mod Listing
pub mod ReadOnly
pub mod Printed
use Prim.Native.Nat.{bit_and}
use tarfs.Base.{
  ℕ, zero, suc, ◌-◌, Option, none, some, List, [], ◌∷◌, ltb, ◌==◌, if◌then◌else◌, add64,
}
use tarfs.Meta.{Sblock, Direct, Dinode, zero_dinode, zero_dext, tarfs_root_ino, tarfs_ifdir}
use tarfs.Manager.{
  Block, sblock, dinode, Incore, Manager, World, Run, ok, fault, out_of_fuel, M, and_then, pure,
  ◌>>=◌,
}
use tarfs.Mkfs.{pread}
use tarfs.Inode.{get_dinode}
use tarfs.Directory.{Cursor, load_entry}

-- memset(mp, 0, sizeof(mkfs_mgr_t))
abbrev pub zero_sblock : Sblock
zero_sblock = record {
  tarfs_magic = 0;
  tarfs_inodes = 0;
  tarfs_dsize = 0;
  tarfs_size = 0;
  tarfs_fsize = 0;
  tarfs_flist_regdata = 0;
  tarfs_flist_dirdata = 0;
  tarfs_flist_iexdata = 0;
  tarfs_flist_ind_dinode = 0;
  tarfs_flist_dinode = 0;
  tarfs_root = 0;
  tarfs_free = 0;
  tarfs_flags = 0;
  tarfs_maxino = 0;
}

abbrev pub zero_incore : (ino pino : ℕ) → Incore
zero_incore ino pino = record {
  i_ph = none;
  i_de = zero_dext;
  i_ino = ino;
  i_pino = pino;
  i_blkno = 0;
  i_dinode = zero_dinode;
}

abbrev pub zero_manager : World → Manager
zero_manager w = record {
  world = w;
  m_size = w.size;
  m_orgsize = 0;
  m_sb = zero_sblock;
  m_free = zero_incore 0 0;
  m_root = zero_incore 0 0;
}

-- What the second `pread` of init read, which may be nothing
unfoldable pub read_free : Option Block → M (Unit {0})
read_free none m = ok tt m
read_free (some (dinode d)) m = ok tt (record m { m_free = record m.m_free { i_dinode = d } })
read_free (some _) m = fault

-- What the first one read. Where it fails, init returns the 0 of `fstat`.
unfoldable pub read_sblock : Option Block → M (Unit {0})
unfolding read_free
read_sblock none m = ok tt m
read_sblock (some (sblock sb)) m =
    read_free (pread sb.tarfs_free m.world)
      (record m { m_sb = sb; m_root = zero_incore 0 tarfs_root_ino })
read_sblock (some _) m = fault

-- init
unfoldable pub init : World → Run (Unit {0})
unfolding read_sblock
init w = read_sblock (pread (w.size - 1) w) (zero_manager w)

-- One round of tarfs_readdir at the entry `dp`, with the rest of the loop
unfoldable pub print_step : ℕ → Cursor → (ℕ → Cursor → M (List Direct)) → M (List Direct)
print_step off c rest = elim c.dp [
  | [] ↦ λ m. fault
  | dp ∷ next ↦ do es ← rest (add64 off dp.d_reclen) (record c { dp = next }); pure (dp ∷ es)
]

-- `while (off < endoff)`, with a round of fuel for each byte of the directory
unfoldable pub readdir_loop : ℕ → Dinode → ℕ → Cursor → M (List Direct)
unfolding print_step
readdir_loop zero parentp off c = if ltb off parentp.di_size then (λ m. out_of_fuel) else pure []
readdir_loop (suc k) parentp off c =
    let rest = readdir_loop k parentp in
    if ltb off parentp.di_size
    then (do c' ← load_entry parentp off c; print_step off c' rest)
    else pure []

-- tarfs_readdir: the entries that it prints
unfoldable pub tarfs_readdir : Dinode → M (List Direct)
unfolding readdir_loop
tarfs_readdir parentp =
    readdir_loop parentp.di_size parentp 0 (record { dirblkno = 0; dirbuf = []; dp = [] })

-- The inode, and the entries if it was printed as a directory
unfoldable pub print_dir : Incore → M (Incore × Option (List Direct))
unfolding tarfs_readdir
print_dir inode =
    if bit_and inode.i_dinode.di_mode tarfs_ifdir == 0
    then pure (inode, none)
    else (do es ← tarfs_readdir inode.i_dinode; pure (inode, some es))

-- `main` from the opened file and the inode number on
unfoldable pub check_tarfs : World → (ino : ℕ) → Run (Incore × Option (List Direct))
unfolding init print_dir
check_tarfs w ino =
    and_then (init w) λ u. (do inode ← get_dinode (zero_incore ino 0); print_dir inode)

-- ===== src/Inode.antt =====
-- cmd/tarfs_common.c: inodes on the device, `allocDinodeData`, `allocDinode`, `allocFreeDinode`,
-- `getDinode` and `setNewDirEntry`. `struct incore_dinode` is passed and returned by value; where the
-- code is given the manager's own `m_free`, the field is updated.
pub mod Fields
pub mod Archive
use Prim.Native.Nat.{bit_or}
use tarfs.Base.{
  ℕ, ◌-◌, ◌*◌, ◌%◌, ◌^◌, Option, none, some, List, [], ◌∷◌, ◌++◌, ltb, ◌==◌, if◌then◌else◌, add64,
  set,
}
use tarfs.Meta.{
  tar_blocksize, PosixHeader, Dext, Direct, Dinode, zero_dinode, tarblk_none, tardinode_magic,
  tarfs_ifreg, tarfs_ifdir, tarfs_iflnk, tarfs_ftype_dir, dirent_size, tarfs_blocks,
}
use tarfs.Manager.{
  Block, dinode, dir_data, Incore, Manager, M, pure, get, put, ◌>>=◌, ◌>>◌, write_data, read_data,
  as_dinode, get_current_time,
}
use tarfs.Alloc.{Flist, alloc_num, alloc_free_data, pop_free, alloc_data, get_free_dirdata}
use tarfs.Extent.{get_data_block, insert_data_extent}
use tarfs.Header.{getval8, strlen}

abbrev pub with_free_dinode : Dinode → Manager → Manager
with_free_dinode d m = record m { m_free = record m.m_free { i_dinode = d } }

-- A new chunk of blocks for inodes: it is entered into the free inode's extents.
unfoldable pub refill_dinodes : M (Unit {0})
refill_dinodes = do
  alloc_free_data Flist.dinode (alloc_num Flist.dinode)
  m ← get
  d ← insert_data_extent m.m_free.i_dinode (record {
    de_off = m.m_sb.tarfs_maxino;
    de_blkno = m.m_sb.tarfs_flist_dinode;
    de_nblks = alloc_num Flist.dinode;
  })
  m' ← get
  put (with_free_dinode d m')
  write_data (dinode d ∷ []) m'.m_free.i_blkno

-- allocDinodeData
unfoldable pub alloc_dinode_data : M (Block × ℕ)
alloc_dinode_data m =
    if m.m_sb.tarfs_flist_dinode == tarblk_none
    then (refill_dinodes >> pop_free Flist.dinode) m
    else pop_free Flist.dinode m

-- setFirstDirData: the entries `.` and `..`
unfoldable pub set_first_dir_data : (ino pino : ℕ) → List Direct
set_first_dir_data ino pino =
    record {
      d_ino = ino;
      d_reclen = dirent_size 1;
      d_namelen = 1;
      d_ftype = tarfs_ftype_dir;
      d_name = b'.' ∷ [];
    }
    ∷ record {
      d_ino = pino;
      d_reclen = tar_blocksize - dirent_size 1;
      d_namelen = 2;
      d_ftype = tarfs_ftype_dir;
      d_name = b'.' ∷ b'.' ∷ [];
    }
    ∷ []

-- setNewDirEntry
unfoldable pub set_new_dir_entry : Incore → M Incore
set_new_dir_entry parentp = do
  (buf, blkno) ← alloc_data get_free_dirdata
  d ←
      insert_data_extent parentp.i_dinode
        (record { de_off = parentp.i_dinode.di_blocks; de_blkno = blkno; de_nblks = 1 })
  write_data (dir_data (set_first_dir_data parentp.i_ino parentp.i_pino) ∷ []) blkno
  let d' = record d { di_blocks = 1; di_size = tar_blocksize }
  write_data (dinode d' ∷ []) parentp.i_blkno
  pure (record parentp { i_dinode = d' })

-- The inode that allocDinode fills in before it looks at a header
abbrev pub fresh_dinode : (now ftype : ℕ) → Dinode
fresh_dinode now ftype = record zero_dinode {
  di_magic = tardinode_magic;
  di_atime = now;
  di_ctime = now;
  di_mtime = now;
  di_mode = bit_or ftype 0o755;
  di_nlink = if ftype == tarfs_ifdir then 2 else 1;
}

-- the fields from the header `ph`, for every type of file
abbrev pub headed_dinode : PosixHeader → ℕ → Dinode → Dinode
headed_dinode ph ftype d =
    let mtime = getval8 ph.mtime * 1_000_000 % 2 ^ 64 in
    record d {
      di_mode = bit_or ftype (getval8 ph.mode % 2 ^ 32);
      di_uid = getval8 ph.uid % 2 ^ 32;
      di_gid = getval8 ph.gid % 2 ^ 32;
      di_mtime = mtime;
      di_atime = mtime;
      di_ctime = mtime;
    }

-- the fields of a regular file: its data are the blocks of the archive
abbrev pub regular_dinode : PosixHeader → Dext → Dinode → Dinode
regular_dinode ph de d =
    let size = getval8 ph.size in
    let d' = record d { di_size = size; di_blocks = tarfs_blocks size } in
    if ltb 0 (tarfs_blocks size)
    then record d' { di_nextents = 1; di_direct_extent = set d'.di_direct_extent 0 de }
    else d'

-- `if (ph) { … }` of allocDinode. `linkname` has no terminator of its own: the next field follows.
unfoldable pub fill_dinode : Option PosixHeader → Dext → ℕ → Dinode → Dinode
fill_dinode none de ftype d = d
fill_dinode (some ph) de ftype d =
    let d' = headed_dinode ph ftype d in
    if ftype == tarfs_ifreg
    then regular_dinode ph de d'
    else if ftype == tarfs_iflnk
    then record d' { di_size = strlen (ph.linkname ++ ph.magic); di_blocks = 0 }
    else d'

-- The new inode before its blocks are written, and the superblock's count of data blocks
unfoldable pub start_dinode : Incore → (ftype blkno : ℕ) → M Incore
unfolding fill_dinode
start_dinode icp ftype blkno m =
    let d = fill_dinode icp.i_ph icp.i_de ftype (fresh_dinode (get_current_time m.world) ftype) in
    let dp = record icp { i_blkno = blkno; i_dinode = d; i_ino = m.m_sb.tarfs_maxino } in
    let sb = record m.m_sb { tarfs_dsize = add64 m.m_sb.tarfs_dsize d.di_blocks } in
    pure dp (if ftype == tarfs_ifreg then record m { m_sb = sb } else m)

-- mp->m_sb.tarfs_maxino++; mp->m_sb.tarfs_inodes++
abbrev pub count_inode : Manager → Manager
count_inode m = record m {
  m_sb = record m.m_sb {
    tarfs_maxino = add64 m.m_sb.tarfs_maxino 1;
    tarfs_inodes = add64 m.m_sb.tarfs_inodes 1;
  };
}

-- allocDinode
unfoldable pub alloc_dinode : Incore → (ftype : ℕ) → M Incore
alloc_dinode icp ftype = do
  (buf, blkno) ← alloc_dinode_data
  dp ← start_dinode icp ftype blkno
  dp ← if ftype == tarfs_ifdir then set_new_dir_entry dp else pure dp
  m ← get
  put (count_inode m)
  write_data (dinode dp.i_dinode ∷ []) dp.i_blkno
  pure dp

-- allocFreeDinode, at `&mp->m_free`
unfoldable pub alloc_free_dinode : M (Unit {0})
alloc_free_dinode = do
  alloc_free_data Flist.dinode (alloc_num Flist.dinode)
  (buf, blkno) ← pop_free Flist.dinode
  m ← get
  let d = record (fresh_dinode (get_current_time m.world) tarfs_ifreg) { di_header = tarblk_none }
  let dp = record m.m_free { i_blkno = blkno; i_ino = m.m_sb.tarfs_maxino; i_dinode = d }
  put (count_inode (record m { m_free = dp }))
  d' ←
      insert_data_extent d (record {
        de_off = m.m_sb.tarfs_maxino;
        de_blkno = blkno;
        de_nblks = alloc_num Flist.dinode;
      })
  m' ← get
  put (with_free_dinode d' m')
  write_data (dinode d' ∷ []) blkno

-- getDinode
unfoldable pub get_dinode : Incore → M Incore
get_dinode ip = do
  m ← get
  blkno ← get_data_block m.m_free.i_dinode ip.i_ino
  buf ← read_data blkno
  d ← as_dinode buf
  pure (record ip { i_blkno = blkno; i_dinode = d })

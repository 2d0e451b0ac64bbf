-- ===== src/Maker/Factory.antt =====
-- cmd_c++/inode_factory.cc, and `Dir::dirInit` of cmd_c++/dir.cc: where inodes come from.
use tarfs.Base.{ℕ, ◌+◌, ◌%◌, ◌^◌, true, [], ◌∷◌, ◌==◌, if◌then◌else◌, add64}
use tarfs.Meta.{tarblk_none, tar_blocksize, tarfs_ifdir, tarfs_ifreg}
use tarfs.Manager.{Block, get_current_time}
use tarfs.Inode.{set_first_dir_data}
use tarfs.Maker.{Inode, M, pure, get, put, ◌>>=◌, ◌>>◌, write_block}
use tarfs.Maker.Space.{Manages, dinodes, alloc_block}
use tarfs.Maker.Files.{File, file_type, get_blocks, initialize, new_inode, load_inode, set_file}
use tarfs.Maker.Extents.{get_block, known_block, ins_block}

-- Dir::dirInit. The entries `.` and `..` are those of setFirstDirData.
unfoldable pub dir_init : Inode → M Inode
dir_init i = do
  blkno ← alloc_block Manages.dir_data
  i ← ins_block i (record { de_off = i.dinode.di_blocks; de_blkno = blkno; de_nblks = 1 })
  write_block (Block.dir_data (set_first_dir_data i.ino i.pino) ∷ []) blkno
  pure (record i {
    dinode = record i.dinode {
      di_nlink = (i.dinode.di_nlink + 1) % 2 ^ 32;
      di_blocks = 1;
      di_size = tar_blocksize;
    };
  })

-- a new chunk for inodes is entered into the extents of the free inode
unfoldable pub enter_chunk : (ino blkno : ℕ) → M (Unit {0})
enter_chunk ino blkno = do
  s ← get
  f ←
      ins_block s.free_inode
        (record { de_off = ino; de_blkno = blkno; de_nblks = s.dinodemgr.bulks })
  s ← get
  put (record s { free_inode = f })

-- InodeFactory::allocInode(fs, pino, ftype)
unfoldable pub alloc_inode : (pino ftype : ℕ) → M Inode
unfolding enter_chunk dir_init
alloc_inode pino ftype = do
  s ← get
  let ino = s.inode_num
  let oldblkno = s.dinodemgr.blkno
  blkno ← alloc_block dinodes
  if oldblkno == tarblk_none then enter_chunk ino blkno else pure tt
  s ← get
  let i = new_inode ino pino blkno ftype s
  i ← if ftype == tarfs_ifdir then dir_init i else pure i
  s ← get
  put (record s { inode_num = add64 s.inode_num 1 })
  pure (record i { is_mod = true })

-- InodeFactory::allocInode(fs, pino, file)
unfoldable pub alloc_file : (pino : ℕ) → File → M Inode
alloc_file pino file = do
  i ← alloc_inode pino (file_type file)
  s ← get
  put (
      if file_type file == tarfs_ifreg
      then record s { total_data_size = add64 s.total_data_size (get_blocks file) }
      else s)
  pure (set_file file i)

-- InodeFactory::getInode
unfoldable pub get_inode : (ino pino : ℕ) → M Inode
get_inode ino pino = do
  s ← get
  found ← get_block s.free_inode ino
  blkno ← known_block found
  load_inode ino pino blkno

-- InodeFactory::init
unfoldable pub init_factory : M (Unit {0})
init_factory = do
  blkno ← alloc_block dinodes
  s ← get
  put (record s { inode_num = 0 })
  i ←
      ins_block (initialize (get_current_time s.world) 0 0 blkno 0 s.unset)
        (record { de_off = 0; de_blkno = blkno; de_nblks = s.dinodemgr.bulks })
  s ← get
  put (record s { free_inode = i; inode_num = 1; total_data_size = 0 })

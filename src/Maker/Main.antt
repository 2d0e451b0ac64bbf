-- ===== src/Maker/Main.antt =====
-- cmd_c++/fsmaker.cc and mkfs_tarfs.cc: `FsMaker::create`, `add` and `complete`, and `main` from the opened
-- files on.
use tarfs.Base.{
  ℕ, zero, suc, ◌+◌, ◌-◌, Bool, Option, none, some, List, [], ◌∷◌, ◌==◌, if◌then◌else◌, add64,
}
use tarfs.Meta.{
  Bytes, Sblock, zero_dinode, tarsblock_magic, tarsblock_flag_ok, tarblk_none, tarfs_root_ino,
  tarfs_ifdir,
}
use tarfs.Manager.{sblock, World}
use tarfs.Mkfs.{pread}
use tarfs.Maker.{
  Inode, SpaceManager, Maker, Run, ok, fault, out_of_fuel, M, pure, get, put, ◌>>=◌, ◌>>◌, rollback,
  grow_to, pwrite,
}
use tarfs.Maker.Files.{File, set_file}
use tarfs.Maker.Extents.{sync}
use tarfs.Maker.Factory.{alloc_inode, init_factory}
use tarfs.Maker.Dir.{lookup, mkdir, create}
use tarfs.Maker.Parser.{get_file}

-- `dir` of the loop of FsMaker::add: the root that the FsMaker holds, or an object of its own.
pub data Parent : Type 0 where
  at_root : Parent
  object : Inode → Parent

abbrev pub dir_of : Parent → Maker → Inode
dir_of at_root s = s.root
dir_of (object d) s = d

-- What the calls leave in `*dir`; one that is not the root is written and deleted.
unfoldable pub leave_dir : Parent → Inode → M (Unit {0})
leave_dir at_root d s = ok tt (record s { root = d })
leave_dir (object d') d s = sync d s

-- the directory `name`, which is created if it is not there
unfoldable pub next_dir : Inode → Bytes → Option Inode → M (Inode × Inode)
next_dir dir name none = mkdir dir name
next_dir dir name (some inode) = if inode.ftype == tarfs_ifdir then pure (dir, inode) else rollback

-- the file `name`
unfoldable pub last_file : Inode → Bytes → File → Option Inode → M (Inode × Inode)
last_file dir name file none = create dir name file
last_file dir name file (some inode) = pure (dir, set_file file inode)

-- The loop of FsMaker::add
unfoldable pub add_names : List Bytes → Parent → File → M (Unit {0})
unfolding next_dir last_file leave_dir
add_names [] parent file = λ s. fault
add_names (name ∷ []) parent file = do
  s ← get
  let dir = dir_of parent s
  inode ← lookup dir name
  (dir, inode) ← last_file dir name file inode
  sync inode
  leave_dir parent dir
add_names (name ∷ n ∷ names) parent file = do
  s ← get
  let dir = dir_of parent s
  inode ← lookup dir name
  (dir, next) ← next_dir dir name inode
  sync next
  leave_dir parent dir
  add_names (n ∷ names) (object next) file

-- FsMaker::add
unfoldable pub add : File → M (Unit {0})
unfolding add_names
add file = add_names file.path at_root file

-- writeBlock of the super block: the buffer is `this->sb` itself, in which it sets the size first.
unfoldable pub write_sblock : M (Unit {0})
write_sblock s = let s' = grow_to (add64 s.blks 1) s in pwrite (sblock s'.sb ∷ []) s.blks s'

-- FsMaker::complete, with InodeFactory::fin
unfoldable pub complete : M (Unit {0})
unfolding write_sblock
complete = do
  s ← get
  put (record s {
    sb = record s.sb {
      tarfs_dsize = s.total_data_size;
      tarfs_flist_dirdata = s.dirmgr.blkno;
      tarfs_flist_iexdata = s.iexmgr.blkno;
      tarfs_flist_dinode = s.dinodemgr.blkno;
      tarfs_inodes = s.inode_num;
      tarfs_maxino = s.inode_num;
    };
  })
  sync s.root
  sync s.free_inode
  write_sblock

-- the super block of FsMaker::create; `fsize` is what the archive's last block holds in that place
abbrev pub fresh_sblock : (fsize blocks : ℕ) → Sblock
fresh_sblock fsize blocks = record {
  tarfs_magic = tarsblock_magic;
  tarfs_inodes = 0;
  tarfs_dsize = 0;
  tarfs_size = 0;
  tarfs_fsize = fsize;
  tarfs_flist_regdata = tarblk_none;
  tarfs_flist_dirdata = tarblk_none;
  tarfs_flist_iexdata = tarblk_none;
  tarfs_flist_ind_dinode = tarblk_none;
  tarfs_flist_dinode = tarblk_none;
  tarfs_root = blocks + 1;
  tarfs_free = blocks;
  tarfs_flags = tarsblock_flag_ok;
  tarfs_maxino = 0;
}

abbrev pub no_inode : Inode
no_inode = record {
  ftype = 0;
  is_mod = Bool.false;
  ino = 0;
  pino = 0;
  blkno = 0;
  dinode = zero_dinode;
}

-- ALLOC_DIRDATA_NUM, ALLOC_IEXDATA_NUM, ALLOC_DINODE_NUM
abbrev pub new_space : SpaceManager
new_space = record { blkno = tarblk_none; bulks = 256 }

abbrev pub new_maker : World → (fsize : ℕ) → Bool → Maker
new_maker w fsize unset = record {
  world = w;
  blks = w.size;
  orgblks = w.size;
  sb = fresh_sblock fsize w.size;
  dirmgr = new_space;
  iexmgr = new_space;
  dinodemgr = new_space;
  root = no_inode;
  free_inode = no_inode;
  inode_num = 0;
  total_data_size = 0;
  unset = unset;
}

-- The file has a last block, and it is no super block.
unfoldable pub is_fresh : World → Bool
is_fresh w = elim (pread (w.size - 1) w) [
  | none ↦ Bool.false
  | some (sblock sb) ↦ if sb.tarfs_magic == tarsblock_magic then Bool.false else Bool.true
  | some _ ↦ Bool.true
]

-- FsMaker::create from the super block on
unfoldable pub make_root : M (Unit {0})
make_root = do
  init_factory
  root ← alloc_inode tarfs_root_ino tarfs_ifdir
  s ← get
  put (record s { root = root })

-- `while ((file = parser->get()))` of main, with a round of fuel for each block of the file
unfoldable pub add_files : ℕ → ℕ → M (Unit {0})
unfolding add
add_files zero curoff = λ s. out_of_fuel
add_files (suc k) curoff = do
  s ← get
  elim (get_file s.world curoff) [
    | none ↦ pure tt
    | some (file, next) ↦ do add file; add_files k next
  ]

-- main
unfoldable pub mkfs_tarfs : World → (fsize : ℕ) → Bool → Run (Unit {0})
unfolding is_fresh make_root add_files complete
mkfs_tarfs w fsize unset =
    if is_fresh w
    then (do make_root; add_files (w.size + 1) 0; complete) (new_maker w fsize unset)
    else ok tt (new_maker w fsize unset)

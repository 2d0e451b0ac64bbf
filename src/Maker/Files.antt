-- ===== src/Maker/Files.antt =====
-- cmd_c++/inode.cc and cmd_c++/file.cc: the class Inode, and the File that it is set from.
use Prim.Native.Nat.{bit_and, bit_or}
use tarfs.Base.{ℕ, ◌*◌, ◌%◌, ◌^◌, Bool, true, List, ◌++◌, ltb, ◌==◌, ◌&&◌, if◌then◌else◌, set}
use tarfs.Meta.{
  Bytes, PosixHeader, Dext, zero_dinode, tardinode_magic, tarblk_none, tarfs_ifmt, tarfs_ifreg,
  tarfs_ifdir, tarfs_iflnk, ftype_dinode2dir, tarfs_blocks,
}
use tarfs.Manager.{get_current_time}
use tarfs.Header.{getval8, get_ftype, strlen}
use tarfs.Maker.{Inode, Maker, M, pure, ◌>>=◌, read_block, as_dinode}

-- class File
pub record File : Type 0 where
  pub path : List Bytes
  pub blkno_header : ℕ
  pub header : PosixHeader
  pub addr_extent : Dext

-- File::getFtype
abbrev pub file_type : File → ℕ
file_type f = get_ftype f.header.typeflag

-- File::getFileSize
unfoldable pub get_file_size : File → ℕ
get_file_size f =
    if file_type f == tarfs_iflnk
    then strlen (f.header.linkname ++ f.header.magic)
    else getval8 f.header.size

-- File::getBlocks
unfoldable pub get_blocks : File → ℕ
unfolding get_file_size
get_blocks f = if file_type f == tarfs_ifreg then tarfs_blocks (get_file_size f) else 0

-- File::getNumExtents
unfoldable pub get_num_extents : File → ℕ
get_num_extents f = if file_type f == tarfs_ifreg && ltb 0 (get_file_size f) then 1 else 0

-- Inode::initialize
unfoldable pub initialize : (now ino pino blkno : ℕ) (ftype : ℕ) → Bool → Inode
initialize now ino pino blkno ftype unset = record {
  ftype = ftype;
  is_mod = unset;
  ino = ino;
  pino = pino;
  blkno = blkno;
  dinode = record zero_dinode {
    di_magic = tardinode_magic;
    di_atime = now;
    di_ctime = now;
    di_mtime = now;
    di_header = tarblk_none;
    di_nlink = 1;
  };
}

-- Inode::Inode(ino, pino, blkno, ftype)
unfoldable pub new_inode : (ino pino blkno ftype : ℕ) → Maker → Inode
unfolding initialize
new_inode ino pino blkno ftype s =
    let i = initialize (get_current_time s.world) ino pino blkno ftype s.unset in
    record i { dinode = record i.dinode { di_mode = bit_or ftype 0o755 } }

-- The type of a file that is read. One that is none of these leaves `ftype` unset: it is 0 here.
unfoldable pub mode_type : ℕ → ℕ → ℕ
mode_type mode other =
    let fmt = bit_and mode tarfs_ifmt in
    if fmt == tarfs_ifreg
    then tarfs_ifreg
    else if fmt == tarfs_ifdir
    then tarfs_ifdir
    else if fmt == tarfs_iflnk
    then tarfs_iflnk
    else other

-- Inode::Inode(ino, pino, blkno, fsio)
unfoldable pub load_inode : (ino pino blkno : ℕ) → M Inode
unfolding mode_type initialize
load_inode ino pino blkno s =
    (do
      buf ← read_block blkno
      d ← as_dinode buf
      let i = initialize (get_current_time s.world) ino pino blkno 0 s.unset
      pure (record i { ftype = mode_type d.di_mode 0; dinode = d }))
      s

-- Inode::setFile
unfoldable pub set_file : File → Inode → Inode
unfolding get_file_size get_blocks get_num_extents
set_file file i =
    let mtime = getval8 file.header.mtime * 1_000_000 % 2 ^ 64 in
    let d = record i.dinode {
      di_header = file.blkno_header;
      di_mode = bit_or (file_type file) (getval8 file.header.mode % 2 ^ 32);
      di_uid = getval8 file.header.uid % 2 ^ 32;
      di_gid = getval8 file.header.gid % 2 ^ 32;
      di_mtime = mtime;
      di_atime = mtime;
      di_ctime = mtime;
    } in
    record i {
      is_mod = true;
      dinode = if file_type file == tarfs_ifdir then d else record d {
        di_size = get_file_size file;
        di_blocks = get_blocks file;
        di_nextents = get_num_extents file;
        di_direct_extent = set d.di_direct_extent 0 file.addr_extent;
      };
    }

-- Inode::getDirFtype
abbrev pub get_dir_ftype : Inode → ℕ
get_dir_ftype i = ftype_dinode2dir i.dinode.di_mode

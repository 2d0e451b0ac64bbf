-- ===== src/Meta.antt =====
-- include/tarfs_meta.h: the on-disk structures and the macros that measure them.
-- A struct is a record of the fields that the code reads or writes; magic numbers are kept, padding
-- is not. A fixed array is a list of that length.
use tarfs.Base.{ℕ, ◌+◌, ◌-◌, ◌*◌, ◌/◌, ◌%◌, ◌^◌, List, ◌==◌, if◌then◌else◌, replicate}
use Prim.Native.Nat.{bit_and}

abbrev pub tar_blocksize : ℕ
tar_blocksize = 512

-- typeflag
abbrev pub tarfs_regtype : ℕ
tarfs_regtype = b'0'

abbrev pub tarfs_symtype : ℕ
tarfs_symtype = b'2'

abbrev pub tarfs_dirtype : ℕ
tarfs_dirtype = b'5'

abbrev pub tarfs_gnu_longname : ℕ
tarfs_gnu_longname = b'L'

-- A `char` is a number below 256.
abbrev pub Bytes : Type 0
Bytes = List ℕ

pub record PosixHeader : Type 0 where
  pub name : Bytes
  pub mode : Bytes
  pub uid : Bytes
  pub gid : Bytes
  pub size : Bytes
  pub mtime : Bytes
  pub chksum : Bytes
  pub typeflag : ℕ
  pub linkname : Bytes
  pub magic : Bytes

abbrev pub tarsblock_magic : ℕ
tarsblock_magic = 0xbeaf_cafe

abbrev pub tardinode_magic : ℕ
tardinode_magic = 0xdacb_dacb

abbrev pub tarfree_magic : ℕ
tarfree_magic = 0xdead_dead

abbrev pub tarinde_magic : ℕ
tarinde_magic = 0xbeeb_beeb

-- `(uint64_t)-1`
abbrev pub tarblk_none : ℕ
tarblk_none = 2 ^ 64 - 1

abbrev pub tarfs_root_ino : ℕ
tarfs_root_ino = 1

pub record Dext : Type 0 where
  pub de_off : ℕ
  pub de_blkno : ℕ
  pub de_nblks : ℕ

abbrev pub zero_dext : Dext
zero_dext = record { de_off = 0; de_blkno = 0; de_nblks = 0 }

abbrev pub max_indext : ℕ
max_indext = 20

pub record IndExt : Type 0 where
  pub ie_magic : ℕ
  pub ie_next : ℕ
  pub ie_num : ℕ
  pub ie_dext : List Dext

abbrev pub tarsblock_flag_ng : ℕ
tarsblock_flag_ng = 1

abbrev pub tarsblock_flag_ok : ℕ
tarsblock_flag_ok = 2

pub record Sblock : Type 0 where
  pub tarfs_magic : ℕ
  pub tarfs_inodes : ℕ
  pub tarfs_dsize : ℕ
  pub tarfs_size : ℕ
  pub tarfs_fsize : ℕ
  pub tarfs_flist_regdata : ℕ
  pub tarfs_flist_dirdata : ℕ
  pub tarfs_flist_iexdata : ℕ
  pub tarfs_flist_ind_dinode : ℕ
  pub tarfs_flist_dinode : ℕ
  pub tarfs_root : ℕ
  pub tarfs_free : ℕ
  pub tarfs_flags : ℕ
  pub tarfs_maxino : ℕ

abbrev pub tarfs_ifmt : ℕ
tarfs_ifmt = 0o170000

abbrev pub tarfs_iflnk : ℕ
tarfs_iflnk = 0o120000

abbrev pub tarfs_ifreg : ℕ
tarfs_ifreg = 0o100000

abbrev pub tarfs_ifdir : ℕ
tarfs_ifdir = 0o040000

abbrev pub maxnamlen : ℕ
maxnamlen = 255

abbrev pub tarfs_ftype_non : ℕ
tarfs_ftype_non = 0

abbrev pub tarfs_ftype_reg : ℕ
tarfs_ftype_reg = 1

abbrev pub tarfs_ftype_dir : ℕ
tarfs_ftype_dir = 2

abbrev pub tarfs_ftype_sym : ℕ
tarfs_ftype_sym = 3

-- TARFS_FTYPE_DIR2DINODE
unfoldable pub ftype_dir2dinode : ℕ → ℕ
ftype_dir2dinode dtype =
    if dtype == tarfs_ftype_reg
    then tarfs_ifreg
    else if dtype == tarfs_ftype_dir
    then tarfs_ifdir
    else if dtype == tarfs_ftype_sym
    then tarfs_iflnk
    else 0

-- TARFS_FTYPE_DINODE2DIR
unfoldable pub ftype_dinode2dir : ℕ → ℕ
ftype_dinode2dir ftype =
    let fmt = bit_and ftype tarfs_ifmt in
    if fmt == tarfs_ifreg
    then tarfs_ftype_reg
    else if fmt == tarfs_ifdir
    then tarfs_ftype_dir
    else if fmt == tarfs_iflnk
    then tarfs_ftype_sym
    else tarfs_ftype_non

pub record Direct : Type 0 where
  pub d_ino : ℕ
  pub d_reclen : ℕ
  pub d_namelen : ℕ
  pub d_ftype : ℕ
  pub d_name : Bytes

-- `x & ~3`
abbrev pub round4 : ℕ → ℕ
round4 x = x - x % 4

-- DIRENT_SIZE: `d_name` stands at byte 13 of `struct tarfs_direct`.
unfoldable pub dirent_size : ℕ → ℕ
dirent_size namelen = round4 (13 + (namelen + 1) * 1 + 3)

-- DIRECT_SIZE: `struct tarfs_direct` has 272 bytes, 256 of them for the name.
unfoldable pub direct_size : Direct → ℕ
direct_size dp = 272 - (maxnamlen + 1) + round4 (dp.d_namelen + 1 + 3)

pub record FreeData : Type 0 where
  pub f_magic : ℕ
  pub f_nextblkno : ℕ

abbrev pub max_dinode_direct : ℕ
max_dinode_direct = 17

pub record Dinode : Type 0 where
  pub di_magic : ℕ
  pub di_mode : ℕ
  pub di_uid : ℕ
  pub di_gid : ℕ
  pub di_nlink : ℕ
  pub di_size : ℕ
  pub di_blocks : ℕ
  pub di_atime : ℕ
  pub di_ctime : ℕ
  pub di_mtime : ℕ
  pub di_header : ℕ
  pub di_nextents : ℕ
  pub di_direct_extent : List Dext
  pub di_root_ind_ext : ℕ
  pub di_flags : ℕ

-- `memset(&i_dinode, 0, TAR_BLOCKSIZE)`
abbrev pub zero_dinode : Dinode
zero_dinode = record {
  di_magic = 0;
  di_mode = 0;
  di_uid = 0;
  di_gid = 0;
  di_nlink = 0;
  di_size = 0;
  di_blocks = 0;
  di_atime = 0;
  di_ctime = 0;
  di_mtime = 0;
  di_header = 0;
  di_nextents = 0;
  di_direct_extent = replicate max_dinode_direct zero_dext;
  di_root_ind_ext = 0;
  di_flags = 0;
}

-- TARFS_BLOCKS
abbrev pub tarfs_blocks : ℕ → ℕ
tarfs_blocks sz = (sz + tar_blocksize - 1) % 2 ^ 64 / tar_blocksize

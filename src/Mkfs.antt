-- ===== src/Mkfs.antt =====
-- cmd/mkfs_tar.c: the archive is parsed, and for each of its headers the path is created.
-- The header that is read last stays in `buf`, and a long name in `path`.
pub mod Path
pub mod Archive
pub mod Sealed
use tarfs.Base.{
  ℕ, zero, suc, ◌+◌, ◌-◌, ◌/◌, ◌%◌, ◌^◌, Bool, true, Option, none, some, [], ◌∷◌, ◌++◌, ltb, leb,
  ◌==◌, ◌&&◌, ◌||◌, if◌then◌else◌, add64, length,
}
use tarfs.Meta.{
  Bytes, tar_blocksize, PosixHeader, Sblock, zero_dinode, zero_dext, tarblk_none, tarfs_ifdir,
  tarfs_regtype, tarfs_gnu_longname, tarsblock_magic, tarsblock_flag_ok, tarsblock_flag_ng,
  tarfs_root_ino,
}
use tarfs.Manager.{
  Block, header, contents, sblock, World, Incore, Manager, eexist, other, Run, ok, fail, fault,
  out_of_fuel, M, and_then, pure, get, put, ◌>>=◌, ◌>>◌, write_data, do_rollback,
}
use tarfs.Header.{getval8}
use tarfs.Inode.{alloc_dinode, alloc_free_dinode}
use tarfs.Directory.{tarfs_create}

-- `pread` of one block, without the rollback of readData: `none` where it is short
abbrev pub pread : ℕ → World → Option Block
pread blkno w = if ltb blkno w.size then some (w.blocks blkno) else none

-- TARFS_AREGTYPE, TARFS_REGTYPE, TARFS_LNKTYPE, TARFS_SYMTYPE, TARFS_CHRTYPE, TARFS_BLKTYPE,
-- TARFS_DIRTYPE, TARFS_FIFOTYPE, TARFS_CONTTYPE: '\0' and '0' to '7'
unfoldable pub is_posix_type : ℕ → Bool
is_posix_type typeflag = typeflag == 0 || (leb b'0' typeflag && leb typeflag b'7')

-- The header's bytes from `name` on: `name` has no terminator of its own.
abbrev pub name_bytes : PosixHeader → Bytes
name_bytes ph =
    ph.name
    ++ (ph.mode
        ++ (ph.uid
            ++ (ph.gid
                ++ (ph.size
                    ++ (ph.mtime ++ (ph.chksum ++ ph.typeflag ∷ (ph.linkname ++ ph.magic)))))))

-- a C string
unfoldable pub cstring : Bytes → Bytes
cstring [] = []
cstring (c ∷ cs) = if c == 0 then [] else c ∷ cstring cs

-- `pread` of `n` blocks of a long name; a block of another kind cannot be read as text
unfoldable pub read_path : ℕ → ℕ → World → Option Bytes
read_path zero blkno w = some []
read_path (suc n) blkno w =
    let rest = read_path n (blkno + 1) w in
    elim (pread blkno w) [
      | some (contents b) ↦ elim rest [ none ↦ none | some bs ↦ some (b ++ bs) ]
      | _ ↦ none
    ]

pub record Parsed : Type 0 where
  pub tarblk : ℕ
  pub ph : PosixHeader
  pub path : Bytes

-- getph: the block of the header, the header and its path; `none` is NULL.
unfoldable pub getph : World → ℕ → PosixHeader → Option Parsed
unfolding read_path is_posix_type cstring
getph w blk ph =
    let size = (getval8 ph.size % 2 ^ 32 + tar_blocksize - 1) % 2 ^ 32 / tar_blocksize in
    if is_posix_type ph.typeflag
    then some (record { tarblk = blk; ph = ph; path = cstring (name_bytes ph) })
    else if ph.typeflag == tarfs_gnu_longname
    then elim (read_path size (blk + 1) w) [
      | none ↦ none
      | some path ↦ elim (pread (blk + 1 + size) w) [
        | some (header ph') ↦
            some (record { tarblk = blk + 1 + size; ph = ph'; path = cstring path })
        | _ ↦ none
      ]
    ]
    else none

-- A component of a path: its bytes, whether it is the last, and what follows its separator
pub record Component : Type 0 where
  pub fname : Bytes
  pub is_last : Bool
  pub rest : Bytes

abbrev pub ends : Bytes → Bool
ends [] = true
ends (c ∷ cs) = c == 0

-- getFname, on the bytes of the path from `start` on, without the terminator. The value -1 cannot
-- occur: `len` counts the terminator, at which the loop ends.
unfoldable pub get_fname : Bytes → Component
get_fname [] = record { fname = []; is_last = true; rest = [] }
get_fname (c ∷ cs) =
    let next = get_fname cs in
    if c == b'/'
    then record { fname = []; is_last = ends cs; rest = cs }
    else record next { fname = c ∷ next.fname }

-- A directory on the way
abbrev pub new_child : ℕ → Incore
new_child pino = record {
  i_ph = none;
  i_de = zero_dext;
  i_ino = 0;
  i_pino = pino;
  i_blkno = 0;
  i_dinode = record zero_dinode { di_header = tarblk_none };
}

-- `parentp` is `&mp->m_root` at first, and a copy of the last child later.
pub data Parent : Type 0 where
  root : Parent
  copy : Incore → Parent

abbrev pub parent_of : Manager → Parent → Incore
parent_of m root = m.m_root
parent_of m (copy p) = p

-- what tarfs_create left in `*parentp`
abbrev pub keep_parent : Parent → Incore → M (Unit {0})
keep_parent root p m = ok tt (record m { m_root = p })
keep_parent (copy q) p m = ok tt m

-- The loop of mkFilePath, with a round of fuel for each byte of the path.
unfoldable pub mk_file_path_loop : ℕ → Bytes → Parent → Incore → M Incore
mk_file_path_loop zero path parent icp = λ m. out_of_fuel
mk_file_path_loop (suc k) path parent icp = do
  m ← get
  let parentp = parent_of m parent
  let next = get_fname path
  let child =
      if next.is_last then record icp { i_pino = parentp.i_ino } else new_child parentp.i_ino
  (parentp, child) ← tarfs_create parentp next.fname child
  keep_parent parent parentp
  let rest = mk_file_path_loop k next.rest (copy child) icp
  if next.is_last then pure child else rest

-- mkFilePath
unfoldable pub mk_file_path : Bytes → Incore → M Incore
unfolding mk_file_path_loop
mk_file_path path icp = mk_file_path_loop (length path + 1) path root icp

-- the inode that parse_tar prepares for a header
abbrev pub parsed_inode : Parsed → ℕ → Incore
parsed_inode p datasz = record {
  i_ph = some p.ph;
  i_de = record { de_off = 0; de_blkno = p.tarblk + 1; de_nblks = datasz };
  i_ino = 0;
  i_pino = 0;
  i_blkno = 0;
  i_dinode = record zero_dinode { di_header = p.tarblk };
}

-- the blocks of data behind a header
abbrev pub data_blocks : PosixHeader → ℕ
data_blocks ph =
    let size = if ph.typeflag == tarfs_regtype then getval8 ph.size else 0 in
    (size + tar_blocksize - 1) % 2 ^ 64 / tar_blocksize

-- if (ph->name[0] == '\0')
abbrev pub unnamed : PosixHeader → Bool
unnamed ph = ends ph.name

-- The body of parse_tar's loop at a header, with the rest of the loop.
unfoldable pub parse_header : World → ℕ → PosixHeader → (ℕ → M (Unit {0})) → M (Unit {0})
parse_header w tarblk ph rest = if unnamed ph then pure tt else elim (getph w tarblk ph) [
  | none ↦ pure tt
  | some p ↦ do
    ic ← mk_file_path p.path (parsed_inode p (data_blocks p.ph))
    rest (add64 p.tarblk (data_blocks p.ph + 1))
]

-- parse_tar, with a round of fuel for each block of the file
unfoldable pub parse_tar_loop : ℕ → ℕ → M (Unit {0})
unfolding parse_header
parse_tar_loop zero tarblk = λ m. out_of_fuel
parse_tar_loop (suc k) tarblk = do
  m ← get
  elim (pread tarblk m.world) [
    | none ↦ fail other
    | some (header ph) ↦ parse_header m.world tarblk ph (parse_tar_loop k)
    | some _ ↦ λ m'. fault
  ]

-- The superblock and the manager of init_mkfs before the first inode. `st_size/TAR_BLOCKSIZE` is
-- the size of the file in blocks.
abbrev pub new_sblock : ℕ → Sblock
new_sblock blocks = record {
  tarfs_magic = tarsblock_magic;
  tarfs_inodes = 0;
  tarfs_dsize = 0;
  tarfs_size = 0;
  tarfs_fsize = 0;
  tarfs_flist_regdata = tarblk_none;
  tarfs_flist_dirdata = tarblk_none;
  tarfs_flist_iexdata = tarblk_none;
  tarfs_flist_ind_dinode = tarblk_none;
  tarfs_flist_dinode = tarblk_none;
  tarfs_root = blocks + 1;
  tarfs_free = blocks;
  tarfs_flags = tarsblock_flag_ng;
  tarfs_maxino = 0;
}

abbrev pub new_incore : (ino pino : ℕ) → Incore
new_incore ino pino = record {
  i_ph = none;
  i_de = zero_dext;
  i_ino = ino;
  i_pino = pino;
  i_blkno = 0;
  i_dinode = zero_dinode;
}

abbrev pub new_manager : World → Manager
new_manager w = record {
  world = w;
  m_size = w.size;
  m_orgsize = w.size;
  m_sb = new_sblock w.size;
  m_free = new_incore 0 tarfs_root_ino;
  m_root = new_incore tarfs_root_ino tarfs_root_ino;
}

-- What init_mkfs makes of the file's last block
pub data Last : Type 0 where
  standby incomplete unreadable archive_end : Last

unfoldable pub last_block : World → Last
last_block w = elim (pread (w.size - 1) w) [
  | none ↦ unreadable
  | some (sblock sb) ↦
      if sb.tarfs_magic == tarsblock_magic
      then (if sb.tarfs_flags == tarsblock_flag_ok then standby else incomplete)
      else archive_end
  | some _ ↦ archive_end
]

unfoldable pub make_inodes : M (Unit {0})
make_inodes = do
  alloc_free_dinode
  m ← get
  r ← alloc_dinode m.m_root tarfs_ifdir
  m' ← get
  put (record m' { m_root = r })

-- init_mkfs. At an incomplete superblock the source truncates the file to the uninitialised
-- `mp->m_orgsize`, and where the last block cannot be read it tests an uninitialised superblock.
unfoldable pub init_mkfs : World → Run (Unit {0})
unfolding last_block
init_mkfs w = elim (last_block w) [
  | standby ↦ fail eexist (new_manager w)
  | incomplete ↦ fault
  | unreadable ↦ fault
  | archive_end ↦ make_inodes (new_manager w)
]

-- `main` from the opened file on. On `fail` it ends with 1; the rollback of a failed parse is an exit.
unfoldable pub rollback_on_error : Run (Unit {0}) → Run (Unit {0})
rollback_on_error (fail e m) = do_rollback m
rollback_on_error r = r

abbrev pub finish_sblock : M (Unit {0})
finish_sblock m =
    let sb = record m.m_sb { tarfs_flags = tarsblock_flag_ok } in
    write_data (sblock sb ∷ []) m.m_size (record m { m_sb = sb })

unfoldable pub after_init : Run (Unit {0}) → Run (Unit {0})
unfolding rollback_on_error parse_tar_loop
after_init (ok _ m) =
    and_then (rollback_on_error (parse_tar_loop (m.world.size + 1) 0 m)) (λ _. finish_sblock)
after_init (fail eexist m) = ok tt m
after_init (fail e m) = fail e m
after_init r = r

unfoldable pub mkfs : World → Run (Unit {0})
unfolding after_init init_mkfs
mkfs w = after_init (init_mkfs w)

-- ===== src/Alloc.antt =====
-- cmd/tarfs_common.c: the lists of free blocks behind the superblock, `_allocData` (here
-- `alloc_free_data`) and `allocData`. A free block holds the number of the next one.
pub mod Archive
pub mod FreeList
pub mod Pool
pub mod Heads
pub mod Refine
pub mod Fresh
use tarfs.Base.{
  ℕ, zero, suc, ◌-◌, ◌*◌, Option, none, some, List, [], ◌∷◌, ltb, ◌==◌, not, if◌then◌else◌, add64,
}
use tarfs.Meta.{tar_blocksize, tarblk_none, tarfree_magic, Sblock}
use tarfs.Manager.{
  Block, free_data, Manager, einval, enomem, fail, M, pure, get, put, ◌>>=◌, ◌>>◌, write_data,
  read_data, as_free,
}

abbrev pub max_blocks : ℕ
max_blocks = 4096

-- The heads of the free lists in the superblock.
pub data Flist : Type 0 where
  regdata dirdata iexdata ind_dinode dinode : Flist

-- `firstBlkp` read
abbrev pub head : Flist → Sblock → ℕ
head regdata sb = sb.tarfs_flist_regdata
head dirdata sb = sb.tarfs_flist_dirdata
head iexdata sb = sb.tarfs_flist_iexdata
head ind_dinode sb = sb.tarfs_flist_ind_dinode
head dinode sb = sb.tarfs_flist_dinode

-- `*firstBlkp = v`
abbrev pub set_head : Flist → ℕ → Sblock → Sblock
set_head regdata v sb = record sb { tarfs_flist_regdata = v }
set_head dirdata v sb = record sb { tarfs_flist_dirdata = v }
set_head iexdata v sb = record sb { tarfs_flist_iexdata = v }
set_head ind_dinode v sb = record sb { tarfs_flist_ind_dinode = v }
set_head dinode v sb = record sb { tarfs_flist_dinode = v }

abbrev pub with_head : Flist → ℕ → Manager → Manager
with_head l v m = record m { m_sb = set_head l v m.m_sb }

-- ALLOC_REGDATA_NUM, ALLOC_DIRDATA_NUM, ALLOC_IEXDATA_NUM, ALLOC_INDDINODE_NUM, ALLOC_DINODE_NUM
abbrev pub alloc_num : Flist → ℕ
alloc_num l = 128

abbrev pub free_block : ℕ → Block
free_block q = free_data (record { f_magic = tarfree_magic; f_nextblkno = q })

-- The buffers from the one that is current in the loop of `_allocData`: `off` is the number of the
-- block behind it, and `rounds` are the rounds left.
unfoldable pub free_image : (off rounds : ℕ) → List Block
free_image off zero = free_block tarblk_none ∷ []
free_image off (suc rounds) = free_block off ∷ free_image (add64 off 1) rounds

-- _allocData. `malloc` gives the buffer if there is memory for it, and `free` gives it back.
unfoldable pub alloc_free_data : Flist → ℕ → M (Unit {0})
unfolding free_image
alloc_free_data l blocks m =
    let soff = m.m_size in
    if not (head l m.m_sb == tarblk_none)
    then fail einval m
    else if ltb max_blocks blocks
    then fail einval m
    else if ltb m.world.memory (tar_blocksize * blocks)
    then fail enomem m
    else (do
      write_data (free_image (add64 soff 1) (blocks - 1)) soff
      m' ← get
      put (with_head l soff m'))
        m

-- The head of the list is taken, and its block read into the caller's buffer.
unfoldable pub pop_free : Flist → M (Block × ℕ)
pop_free l = do
  m ← get
  let blkno = head l m.m_sb
  buf ← read_data blkno
  fdp ← as_free buf
  put (with_head l fdp.f_nextblkno m)
  pure (buf, blkno)

-- GET_FREE_REGDATA, GET_FREE_DIRDATA, GET_FREE_IEXDATA, GET_FREE_INDDINODE
abbrev pub get_free_regdata : ℕ
get_free_regdata = 1

abbrev pub get_free_dirdata : ℕ
get_free_dirdata = 2

abbrev pub get_free_iexdata : ℕ
get_free_iexdata = 3

abbrev pub get_free_inddinode : ℕ
get_free_inddinode = 4

unfoldable pub flist_of : ℕ → Option Flist
flist_of flag =
    if flag == get_free_regdata
    then some regdata
    else if flag == get_free_dirdata
    then some dirdata
    else if flag == get_free_iexdata
    then some iexdata
    else if flag == get_free_inddinode
    then some ind_dinode
    else none

unfoldable pub take_free : Flist → M (Block × ℕ)
take_free l m =
    if head l m.m_sb == tarblk_none
    then (alloc_free_data l (alloc_num l) >> pop_free l) m
    else pop_free l m

-- allocData: the block that it takes, and the buffer.
unfoldable pub alloc_data : ℕ → M (Block × ℕ)
alloc_data flag m = elim (flist_of flag) [ none ↦ fail einval m | some l ↦ take_free l m ]

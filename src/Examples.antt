-- ===== src/Examples.antt =====
-- Tests, and the theorems at concrete inputs.
mod Alloc
mod Android
mod Image
mod Check
mod Cxx
mod Extent
mod Header
mod Inode
mod Knl
mod Mkfs
mod Open
mod Path
mod Run
mod Search
use tarfs.Base.{ℕ, ◌+◌, ◌*◌, zero, suc, none, List, [], ◌∷◌, arith}
use tarfs.Meta.{
  Sblock, Dext, Dinode, zero_dext, zero_dinode, tarblk_none, tarsblock_magic, tarsblock_flag_ng,
}
use tarfs.Manager.{World, contents, Incore, Manager}
use tarfs.Manager.Io.{IsSound}
use tarfs.Alloc.FreeList.{stop}
use tarfs.Alloc.Pool.{Pool, IsPool}
use tarfs.Alloc.Refine.{HasRoom}

-- An archive of four blocks on a device of 1000, before any metadata is written
abbrev pub archive : World
archive = record {
  capacity = 1000;
  size = 4;
  blocks = λ b. contents [];
  memory = 1_000_000;
  tv_sec = 7;
  tv_usec = 5;
}

abbrev pub blank_sblock : Sblock
blank_sblock = record {
  tarfs_magic = tarsblock_magic;
  tarfs_inodes = 0;
  tarfs_dsize = 0;
  tarfs_size = 0;
  tarfs_fsize = 0;
  tarfs_flist_regdata = tarblk_none;
  tarfs_flist_dirdata = tarblk_none;
  tarfs_flist_iexdata = tarblk_none;
  tarfs_flist_ind_dinode = tarblk_none;
  tarfs_flist_dinode = tarblk_none;
  tarfs_root = 5;
  tarfs_free = 4;
  tarfs_flags = tarsblock_flag_ng;
  tarfs_maxino = 0;
}

abbrev pub blank_inode : Incore
blank_inode = record {
  i_ph = none;
  i_de = zero_dext;
  i_ino = 0;
  i_pino = 0;
  i_blkno = 0;
  i_dinode = zero_dinode;
}

abbrev pub start : Manager
start = record {
  world = archive;
  m_size = 4;
  m_orgsize = 4;
  m_sb = blank_sblock;
  m_free = blank_inode;
  m_root = blank_inode;
}

abbrev pub empty_pool : Pool
empty_pool = record { lists = λ l. []; limit = 4 }

pub start-IsPool : IsPool start empty_pool
start-IsPool = record {
  sound = omega arith;
  limit = omega arith;
  linked = λ l. stop (ground arith);
  rising = λ l. tt;
  apart = λ l k h. tt;
}

pub start-HasRoom : HasRoom start
start-HasRoom = omega arith

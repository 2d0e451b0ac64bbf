-- ===== src/Android.antt =====
-- The Android version reads and writes by the macro TARFS_IO of Android/include/tarfs.h, with lseek(2) before
-- read(2) or write(2); the C++ version uses pread(2) and pwrite(2). `FsMaker` and its space managers, inodes
-- and directories are those of cmd_c++.
pub mod Transfers
pub mod Parser
pub mod Parsing
use tarfs.Base.{
  ℕ, ◌+◌, ◌-◌, ◌*◌, ◌≡◌, refl, Bool, true, false, inl, inr, Bool-cases, Option, none, some, List,
  [], ◌∷◌, length, take, ltb, ◌==◌, if◌then◌else◌, add64, arith,
}
use tarfs.Meta.{tar_blocksize}
use tarfs.Manager.{Block, store}
use tarfs.Maker.{Inode, Maker, Run, ok, M, pure, ◌>>=◌, ◌>>◌, rollback, grow_to}

-- What the calls of TARFS_IO return, `none` for -1, and what they leave in `errno`
pub record Calls : Type 0 where
  pub moved : Option ℕ
  pub done : Option ℕ
  pub errno : ℕ

-- _ret == (off_t)(off)
unfoldable pub is_off : Option ℕ → ℕ → Bool
is_off none off = false
is_off (some n) off = n == off

-- TARFS_IO: what it leaves in `ret`. It compares the bytes that were read or written with the offset too.
unfoldable pub tarfs_io : (off : ℕ) → Calls → ℕ
unfolding is_off
tarfs_io off c = if is_off c.moved off then (if is_off c.done off then 0 else c.errno) else c.errno

-- read(2) of one block at `blkno`: behind the end of the file there is nothing to read, and no error.
-- `errno` is then what it was before.
abbrev pub reading : (errno : ℕ) → ℕ → Maker → Calls
reading errno blkno s = record {
  moved = some (blkno * tar_blocksize);
  done = some (if ltb blkno s.world.size then tar_blocksize else 0);
  errno = errno;
}

-- FsMaker::readBlock, of one block; `none` where the buffer keeps what it held
unfoldable pub read_block : (errno : ℕ) → ℕ → M (Option Block)
unfolding tarfs_io rollback
read_block errno blkno s =
    if tarfs_io (blkno * tar_blocksize) (reading errno blkno s) == 0
    then ok (if ltb blkno s.world.size then some (s.world.blocks blkno) else none) s
    else rollback s

-- write(2) from block `blkno` on: it writes what the device has room for. Where there is no room at all it
-- returns -1 and sets `errno`, to `enospc` here; otherwise `errno` is what it was before.
abbrev pub fitting : List Block → ℕ → Maker → List Block
fitting p blkno s = take (s.world.capacity - blkno) p

abbrev pub writing : (enospc errno : ℕ) → List Block → ℕ → Maker → Calls
writing enospc errno p blkno s = record {
  moved = some (blkno * tar_blocksize);
  done =
      if ltb blkno s.world.capacity
      then some (length (fitting p blkno s) * tar_blocksize)
      else none;
  errno = if ltb blkno s.world.capacity then errno else enospc;
}

-- The file after write(2)
abbrev pub written : List Block → ℕ → Maker → Maker
written p blkno s =
    let end = add64 blkno (length p) in
    record s {
      world = record s.world {
        size = if ltb s.world.size end then end else s.world.size;
        blocks = store s.world.blocks blkno p;
      };
    }

-- FsMaker::writeBlock
unfoldable pub write_block : (enospc errno : ℕ) → List Block → ℕ → M (Unit {0})
unfolding tarfs_io rollback grow_to store
write_block enospc errno p blkno s =
    let grown = grow_to (add64 blkno (length p)) s in
    let after = written (fitting p blkno grown) blkno grown in
    if tarfs_io (blkno * tar_blocksize) (writing enospc errno p blkno grown) == 0
    then ok tt after
    else rollback after

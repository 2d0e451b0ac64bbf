-- ===== src/Manager.antt =====
-- The state of mkfs and the I/O routines of cmd/tarfs_common.c.
-- `Manager` is `struct mkfs_manager` (cmd/tarfs_common.h) with the file behind `m_fd` in place of
-- the descriptor. A block of the file is the struct that was last written to it; a read at another
-- struct is undefined in the model (`fault`). The file is a whole number of blocks.
pub mod Ensures
pub mod Frame
pub mod Io
pub mod Archive
pub mod Image
use tarfs.Base.{
  take, ℕ, ◌+◌, ◌-◌, ◌*◌, ◌%◌, ◌^◌, Option, List, [], ◌∷◌, length, ltb, leb, ◌==◌, if◌then◌else◌,
  add64,
}
use tarfs.Meta.{PosixHeader, Dext, IndExt, Sblock, Direct, FreeData, Dinode, Bytes}

pub data Block : Type 0 where
  header : PosixHeader → Block
  contents : Bytes → Block
  free_data : FreeData → Block
  dinode : Dinode → Block
  ind_ext : IndExt → Block
  dir_data : List Direct → Block
  sblock : Sblock → Block

-- What the operating system keeps: the tar file (`size` blocks, and room for `capacity`), the memory
-- that `malloc` can give, and the clock.
pub record World : Type 0 where
  pub capacity : ℕ
  pub size : ℕ
  pub blocks : ℕ → Block
  pub memory : ℕ
  pub tv_sec : ℕ
  pub tv_usec : ℕ

-- struct incore_dinode, without the unused `i_mp`
pub record Incore : Type 0 where
  pub i_ph : Option PosixHeader
  pub i_de : Dext
  pub i_ino : ℕ
  pub i_pino : ℕ
  pub i_blkno : ℕ
  pub i_dinode : Dinode

pub record Manager : Type 0 where
  pub world : World
  pub m_size : ℕ
  pub m_orgsize : ℕ
  pub m_sb : Sblock
  pub m_free : Incore
  pub m_root : Incore

-- `other` is a bare 1 or -1.
pub data Errno : Type 0 where
  einval enomem eexist enoent other : Errno

-- The end of a call: it returned (0 and a value, or an error), the process ended by `exit(1)` in
-- `do_rollback`, or the call is undefined, or the loop's fuel is used up.
pub data Run {ℓ} (A : Type ℓ) : Type ℓ where
  ok : A → Manager → Run A
  fail : Errno → Manager → Run A
  exited : Manager → Run A
  fault : Run A
  out_of_fuel : Run A

abbrev pub M {ℓ} : Type ℓ → Type ℓ
M A = Manager → Run A

abbrev pub pure {ℓ} : {A : Type ℓ} → A → M A
pure = ok

module _ {ℓ κ} {A : Type ℓ} {B : Type κ} where
  abbrev pub and_then : Run A → (A → M B) → Run B
  and_then (ok a m) k = k a m
  and_then (fail e m) k = fail e m
  and_then (exited m) k = exited m
  and_then fault k = fault
  and_then out_of_fuel k = out_of_fuel

  infixl 5 ◌>>=◌ ◌>>◌
  abbrev pub ◌>>=◌ : M A → (A → M B) → M B
  m >>= k = λ s. and_then (m s) k

  abbrev pub ◌>>◌ : M A → M B → M B
  m >> n = m >>= λ _. n

abbrev pub get : M Manager
get m = ok m m

abbrev pub put : Manager → M (Unit {0})
put m' m = ok tt m'

-- The file with block `k` replaced.
abbrev pub update : (ℕ → Block) → ℕ → Block → ℕ → Block
update f k x b = if b == k then x else f b

-- `pwrite` of consecutive blocks from block `k`
unfoldable pub store : (ℕ → Block) → ℕ → List Block → ℕ → Block
store f k [] = f
store f k (x ∷ xs) = update (store f (k + 1) xs) k x

-- (void)ftruncate(mp->m_fd, mp->m_orgsize*TAR_BLOCKSIZE); exit(1)
unfoldable pub do_rollback {ℓ} : {A : Type ℓ} → M A
do_rollback m = exited (record m { world = record m.world { size = m.m_orgsize } })

-- What a `pwrite` past the room that the device has stores: the blocks that fit
abbrev pub partly : World → List Block → ℕ → World
partly w p blkno = record w { blocks = store w.blocks blkno (take (w.capacity - blkno) p) }

-- writeData. A `pwrite` past the room that the device has is short; the rollback cuts off what it stored.
unfoldable pub write_data : List Block → ℕ → M (Unit {0})
unfolding store do_rollback
write_data p blkno m =
    let nblks = length p in
    let end = add64 blkno nblks in
    let w = m.world in
    let w' = record w {
      size = if ltb w.size end then end else w.size;
      blocks = store w.blocks blkno p;
    } in
    if ltb w.capacity (blkno + nblks)
    then do_rollback (record m { world = partly w p blkno })
    else if ltb m.m_size end
    then ok tt (record m {
      world = w';
      m_size = end;
      m_sb = record m.m_sb { tarfs_size = (end + 2 ^ 64 - m.m_orgsize) % 2 ^ 64 };
    })
    else ok tt (record m { world = w' })

-- A `pread` past the end of the file is short.
unfoldable pub read_data : ℕ → M Block
unfolding do_rollback
read_data blkno m =
    if ltb m.world.size (blkno + 1) then do_rollback m else ok (m.world.blocks blkno) m

-- The casts of a block that was read.
unfoldable pub as_free : Block → M FreeData
as_free (free_data d) m = ok d m
as_free _ m = fault

unfoldable pub as_dinode : Block → M Dinode
as_dinode (dinode d) m = ok d m
as_dinode _ m = fault

unfoldable pub as_ind_ext : Block → M IndExt
as_ind_ext (ind_ext x) m = ok x m
as_ind_ext _ m = fault

unfoldable pub as_dir : Block → M (List Direct)
as_dir (dir_data es) m = ok es m
as_dir _ m = fault

-- getCurrentTime
unfoldable pub get_current_time : World → ℕ
get_current_time w = add64 (w.tv_sec * 1_000_000) w.tv_usec

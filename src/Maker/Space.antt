-- ===== src/Maker/Space.antt =====
-- cmd_c++/space.cc: `SpaceManager::allocBlock`.
use tarfs.Base.{ℕ, ◌+◌, ◌-◌, ◌*◌, ltb, ◌==◌, if◌then◌else◌, add64}
use tarfs.Meta.{tar_blocksize, tarblk_none, FreeData}
use tarfs.Manager.{Block, free_data}
use tarfs.Alloc.{free_image}
use tarfs.Maker.{
  SpaceManager, Maker, ok, fault, M, and_then, pure, get, put, ◌>>=◌, ◌>>◌, rollback, read_block,
  write_block,
}

-- The three managers of an FsMaker
pub data Manages : Type 0 where
  dir_data iex_data dinodes : Manages

abbrev pub manager : Manages → Maker → SpaceManager
manager dir_data s = s.dirmgr
manager iex_data s = s.iexmgr
manager dinodes s = s.dinodemgr

abbrev pub with_manager : Manages → SpaceManager → Maker → Maker
with_manager dir_data sp s = record s { dirmgr = sp }
with_manager iex_data sp s = record s { iexmgr = sp }
with_manager dinodes sp s = record s { dinodemgr = sp }

-- this->blkno = v
abbrev pub with_blkno : Manages → ℕ → Maker → Maker
with_blkno sp v s = with_manager sp (record (manager sp s) { blkno = v }) s

unfoldable pub as_free : Block → M FreeData
as_free (free_data d) s = ok d s
as_free _ s = fault

-- A new chunk at the end of the file: its first block is given, and the list begins at the next one.
unfoldable pub new_chunk : Manages → M ℕ
new_chunk sp s =
    let blkno = s.blks in
    let bulks = (manager sp s).bulks in
    and_then
      (write_block (free_image (add64 blkno 1) (bulks - 1)) blkno (with_blkno sp (blkno + 1) s))
      λ u s'. ok blkno s'

-- The first block of the list
unfoldable pub next_free : Manages → M ℕ
unfolding as_free
next_free sp s =
    let blkno = (manager sp s).blkno in
    (do
      buf ← read_block blkno
      space ← as_free buf
      s' ← get
      put (with_blkno sp space.f_nextblkno s')
      pure blkno)
      s

-- SpaceManager::allocBlock. `malloc` gives the buffer if there is memory for it.
unfoldable pub alloc_block : Manages → M ℕ
unfolding new_chunk next_free
alloc_block sp s =
    if ltb s.world.memory ((manager sp s).bulks * tar_blocksize)
    then rollback s
    else if (manager sp s).blkno == tarblk_none
    then new_chunk sp s
    else next_free sp s

-- ===== src/Maker.antt =====
-- The mkfs in C++ (cmd_c++). `Maker` is the state behind an `FsMaker` (tarfs.h, fsmaker.cc): its file, the
-- super block, the space managers, the root directory, and the static members of `InodeFactory`.
pub mod Space
pub mod Files
pub mod Extents
pub mod Factory
pub mod Agree
pub mod Slots
pub mod Paths
pub mod Printing
pub mod Reader
pub mod Sealed
pub mod Reads
pub mod Detach
pub mod Data
pub mod Archive
pub mod Dir
pub mod Parser
pub mod Main
use tarfs.Base.{
  ℕ, ◌+◌, ◌-◌, ◌*◌, ◌%◌, ◌^◌, Bool, Option, none, some, List, [], ◌∷◌, length, ltb, if◌then◌else◌,
  add64,
}
use tarfs.Meta.{Sblock, Dinode, IndExt, Direct}
use tarfs.Manager.{Block, dinode, ind_ext, dir_data, World, store, partly}

-- class SpaceManager
pub record SpaceManager : Type 0 where
  pub blkno : ℕ
  pub bulks : ℕ

-- class Inode; `d_mode` aside, a Dir is an Inode
pub record Inode : Type 0 where
  pub ftype : ℕ
  pub is_mod : Bool
  pub ino : ℕ
  pub pino : ℕ
  pub blkno : ℕ
  pub dinode : Dinode

-- `unset` is what a member of type bool holds that no constructor sets.
pub record Maker : Type 0 where
  pub world : World
  pub blks : ℕ
  pub orgblks : ℕ
  pub sb : Sblock
  pub dirmgr : SpaceManager
  pub iexmgr : SpaceManager
  pub dinodemgr : SpaceManager
  pub root : Inode
  pub free_inode : Inode
  pub inode_num : ℕ
  pub total_data_size : ℕ
  pub unset : Bool

-- A call returns, ends the process, is undefined, or uses up its fuel.
pub data Run {ℓ} (A : Type ℓ) : Type ℓ where
  ok : A → Maker → Run A
  exited : Maker → Run A
  fault out_of_fuel : Run A

abbrev pub M {ℓ} : Type ℓ → Type ℓ
M A = Maker → Run A

abbrev pub pure {ℓ} : {A : Type ℓ} → A → M A
pure = ok

module _ {ℓ κ} {A : Type ℓ} {B : Type κ} where
  abbrev pub and_then : Run A → (A → M B) → Run B
  and_then (ok a s) k = k a s
  and_then (exited s) k = exited s
  and_then fault k = fault
  and_then out_of_fuel k = out_of_fuel

  infixl 5 ◌>>=◌ ◌>>◌
  abbrev pub ◌>>=◌ : M A → (A → M B) → M B
  m >>= k = λ s. and_then (m s) k

  abbrev pub ◌>>◌ : M A → M B → M B
  m >> n = m >>= λ _. n

abbrev pub get : M Maker
get s = ok s s

abbrev pub put : Maker → M (Unit {0})
put s' s = ok tt s'

-- FsMaker::rollback
unfoldable pub rollback {ℓ} : {A : Type ℓ} → M A
rollback s = exited (record s { world = record s.world { size = s.orgblks } })

-- FsMaker::readBlock, of one block
unfoldable pub read_block : ℕ → M Block
unfolding rollback
read_block blkno s =
    if ltb s.world.size (blkno + 1) then rollback s else ok (s.world.blocks blkno) s

-- if ((blkno + nblks) > this->blks) { … }
unfoldable pub grow_to : (end : ℕ) → Maker → Maker
grow_to end s =
    if ltb s.blks end
    then record s {
      blks = end;
      sb = record s.sb { tarfs_size = (end + 2 ^ 64 - s.orgblks) % 2 ^ 64 };
    }
    else s

-- `pwrite`, and the rollback where it is short
unfoldable pub pwrite : List Block → ℕ → M (Unit {0})
unfolding rollback store
pwrite p blkno s =
    let nblks = length p in
    let end = add64 blkno nblks in
    if ltb s.world.capacity (blkno + nblks)
    then rollback (record s { world = partly s.world p blkno })
    else ok tt (record s {
      world = record s.world {
        size = if ltb s.world.size end then end else s.world.size;
        blocks = store s.world.blocks blkno p;
      };
    })

-- FsMaker::writeBlock: the size is set before the write.
unfoldable pub write_block : List Block → ℕ → M (Unit {0})
unfolding grow_to pwrite
write_block p blkno s = pwrite p blkno (grow_to (add64 blkno (length p)) s)

unfoldable pub as_ind_ext : Block → M IndExt
as_ind_ext (ind_ext x) s = ok x s
as_ind_ext _ s = fault

unfoldable pub as_dinode : Block → M Dinode
as_dinode (dinode d) s = ok d s
as_dinode _ s = fault

unfoldable pub as_dir : Block → M (List Direct)
as_dir (dir_data es) s = ok es s
as_dir _ s = fault

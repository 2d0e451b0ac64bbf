-- ===== src/Extent.antt =====
-- cmd/tarfs_common.c: the extents of an inode, `insertDataExtent` and `getDataBlock`. Seventeen
-- extents stand in the inode; the others are in indirect blocks, linked from `di_rootIndExt`.
-- A walk over the indirect blocks has `di_nExtents` rounds of fuel.
pub mod Archive
pub mod Spec
pub mod Chain
pub mod Read
pub mod Merge
pub mod Links
pub mod Walk
pub mod Grow
pub mod Insert
pub mod RoundTrip
pub mod Fields
use tarfs.Base.{
  ℕ, zero, suc, ◌+◌, ◌-◌, ◌%◌, ◌^◌, Option, none, some, List, [], ◌∷◌, ltb, leb, ◌==◌, ◌&&◌, Bool,
  true, false, if◌then◌else◌, add64, set, replicate,
}
use tarfs.Meta.{
  Dext, zero_dext, IndExt, max_indext, Dinode, max_dinode_direct, tarblk_none, tarinde_magic,
}
use tarfs.Manager.{
  Block, ind_ext, Manager, einval, fail, fault, out_of_fuel, M, pure, ◌>>=◌, ◌>>◌, write_data,
  read_data, as_ind_ext,
}
use tarfs.Alloc.{alloc_data, get_free_iexdata}

-- iextp->de_off <= off && off < (iextp->de_off + iextp->de_nblks)
abbrev pub covers : Dext → ℕ → Bool
covers e off = leb e.de_off off && ltb off (add64 e.de_off e.de_nblks)

-- `overrun`: the loop reads behind the array.
pub data Search : Type 0 where
  hit : Dext → Search
  missed overrun : Search

-- for (i = 0; i < n; i++) if (covers) goto done
unfoldable pub find_extent : ℕ → List Dext → ℕ → Search
find_extent zero es off = missed
find_extent (suc n) [] off = overrun
find_extent (suc n) (e ∷ es) off =
    let rest = find_extent n es off in if covers e off then hit e else rest

-- inx = off - iextp->de_off; *blkno = iextp->de_blkno + inx
abbrev pub block_at : Dext → ℕ → ℕ
block_at e off = add64 e.de_blkno (off - e.de_off)

-- the number of extents that stand in the inode
unfoldable pub direct_num : Dinode → ℕ
direct_num ip = if ltb ip.di_nextents max_dinode_direct then ip.di_nextents else max_dinode_direct

-- one indirect block of getDataBlock's `while (1)`, with what follows it
unfoldable pub indirect_step : IndExt → ℕ → M ℕ → M ℕ
indirect_step x off rest = elim (find_extent x.ie_num x.ie_dext off) [
  | hit e ↦ pure (block_at e off)
  | overrun ↦ λ m. fault
  | missed ↦ if x.ie_next == tarblk_none then fail einval else rest
]

unfoldable pub get_indirect : ℕ → ℕ → ℕ → M ℕ
unfolding indirect_step
get_indirect zero off ind_off = λ m. out_of_fuel
get_indirect (suc k) off ind_off = do
  buf ← read_data ind_off
  x ← as_ind_ext buf
  let rest = get_indirect k off x.ie_next
  indirect_step x off rest

-- getDataBlock
unfoldable pub get_data_block : Dinode → ℕ → M ℕ
get_data_block ip off = elim (find_extent (direct_num ip) ip.di_direct_extent off) [
  | hit e ↦ pure (block_at e off)
  | overrun ↦ λ m. fault
  | missed ↦
      if leb ip.di_nextents max_dinode_direct
      then fail einval
      else get_indirect ip.di_nextents off ip.di_root_ind_ext
]

pub data Merged : Type 0 where
  merged : List Dext → Merged
  unmatched overrun : Merged

abbrev pub behind : Dext → Merged → Merged
behind e (merged es) = merged (e ∷ es)
behind e unmatched = unmatched
behind e overrun = Merged.overrun

-- iextp->de_nblks += dep->de_nblks
abbrev pub grow : Dext → Dext → Dext
grow e dep = record e { de_nblks = add64 e.de_nblks dep.de_nblks }

-- The first of `n` extents that ends where `dep` begins takes it in.
unfoldable pub merge_extent : ℕ → List Dext → Dext → Merged
merge_extent zero es dep = unmatched
merge_extent (suc n) [] dep = Merged.overrun
merge_extent (suc n) (e ∷ es) dep =
    let rest = behind e (merge_extent n es dep) in
    if add64 e.de_blkno e.de_nblks == dep.de_blkno then merged (grow e dep ∷ es) else rest

-- one indirect block of insertDataExtent's `while (1)`, with what follows it
unfoldable pub walk_step : ℕ → IndExt → Dext → M (Option (ℕ × IndExt)) → M (Option (ℕ × IndExt))
walk_step ind_off x dep rest = elim (merge_extent x.ie_num x.ie_dext dep) [
  | merged es ↦
      if ind_off == 0
      then pure none
      else (do write_data (ind_ext (record x { ie_dext = es }) ∷ []) ind_off; pure none)
  | overrun ↦ λ m. fault
  | unmatched ↦ if x.ie_next == tarblk_none then pure (some (ind_off, x)) else rest
]

-- The walk gives `none` after a merge, else the last indirect block.
unfoldable pub walk_indirect : ℕ → Dext → ℕ → M (Option (ℕ × IndExt))
unfolding walk_step
walk_indirect zero dep ind_off = λ m. out_of_fuel
walk_indirect (suc k) dep ind_off = do
  buf ← read_data ind_off
  x ← as_ind_ext buf
  let rest = walk_indirect k dep x.ie_next
  walk_step ind_off x dep rest

-- The new indirect block: the buffer keeps nothing that is read of the free block that it was.
unfoldable pub new_ind_ext : Dext → IndExt
new_ind_ext dep = record {
  ie_magic = tarinde_magic;
  ie_next = tarblk_none;
  ie_num = 1;
  ie_dext = set (replicate max_indext zero_dext) 0 dep;
}

-- `getblock:` from an inode with no indirect block
unfoldable pub add_first_indirect : Dinode → Dext → M Dinode
add_first_indirect ip dep = do
  (buf, new_ind_off) ← alloc_data get_free_iexdata
  write_data (ind_ext (new_ind_ext dep) ∷ []) new_ind_off
  pure (record ip { di_root_ind_ext = new_ind_off; di_nextents = add64 ip.di_nextents 1 })

-- `getblock:` behind the last indirect block
unfoldable pub add_next_indirect : Dinode → ℕ → IndExt → Dext → M Dinode
add_next_indirect ip ind_off x dep = do
  (buf, new_ind_off) ← alloc_data get_free_iexdata
  write_data (ind_ext (record x { ie_next = new_ind_off }) ∷ []) ind_off
  write_data (ind_ext (new_ind_ext dep) ∷ []) new_ind_off
  pure (record ip { di_nextents = add64 ip.di_nextents 1 })

-- what follows the walk
unfoldable pub extend_indirect : Dinode → Dext → Option (ℕ × IndExt) → M Dinode
extend_indirect ip dep none = pure ip
extend_indirect ip dep (some (ind_off, x)) =
    if ltb x.ie_num max_indext
    then (do
      write_data
          (ind_ext (record x { ie_dext = set x.ie_dext x.ie_num dep; ie_num = x.ie_num + 1 }) ∷ [])
          ind_off
      pure ip)
    else add_next_indirect ip ind_off x dep

unfoldable pub append_direct : Dinode → Dext → Dinode
append_direct ip dep = record ip {
  di_direct_extent = set ip.di_direct_extent ip.di_nextents dep;
  di_nextents = ip.di_nextents + 1;
}

-- insertDataExtent: the inode in memory after the call.
unfoldable pub insert_data_extent : Dinode → Dext → M Dinode
insert_data_extent ip dep = elim (merge_extent (direct_num ip) ip.di_direct_extent dep) [
  | merged es ↦ pure (record ip { di_direct_extent = es })
  | overrun ↦ λ m. fault
  | unmatched ↦
      if ip.di_nextents == max_dinode_direct
      then add_first_indirect ip dep
      else if ltb ip.di_nextents max_dinode_direct
      then pure (append_direct ip dep)
      else (do
        last ← walk_indirect ip.di_nextents dep ip.di_root_ind_ext
        extend_indirect ip dep last)
]

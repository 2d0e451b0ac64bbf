-- ===== src/Maker/Extents.antt =====
-- cmd_c++/inode.cc: `Inode::insBlock`, `Inode::getBlock` and `Inode::sync`. A walk over the indirect blocks
-- has `di_nExtents` rounds of fuel.
use tarfs.Base.{
  ℕ, zero, suc, ◌+◌, true, Option, none, some, [], ◌∷◌, ltb, leb, ◌==◌, if◌then◌else◌, add64, set,
}
use tarfs.Meta.{Dext, IndExt, Dinode, tarblk_none, max_dinode_direct, max_indext}
use tarfs.Manager.{dinode, ind_ext}
use tarfs.Extent.{
  Search, hit, missed, find_extent, block_at, direct_num, Merged, merged, unmatched, merge_extent,
  append_direct, new_ind_ext,
}
use tarfs.Maker.{
  Inode, ok, fault, out_of_fuel, M, pure, ◌>>=◌, ◌>>◌, read_block, write_block, as_ind_ext,
}
use tarfs.Maker.Space.{iex_data, alloc_block}

-- one indirect block of the loop of getBlock; `none` is a return that leaves `*blkno` unset
unfoldable pub search_indirect : IndExt → ℕ → M (Option ℕ) → M (Option ℕ)
search_indirect x off rest = elim (find_extent x.ie_num x.ie_dext off) [
  | hit e ↦ pure (some (block_at e off))
  | Search.overrun ↦ λ s. fault
  | missed ↦ if x.ie_next == tarblk_none then pure none else rest
]

unfoldable pub search_from : ℕ → ℕ → ℕ → M (Option ℕ)
unfolding search_indirect
search_from zero off ind_off = λ s. out_of_fuel
search_from (suc k) off ind_off = do
  buf ← read_block ind_off
  x ← as_ind_ext buf
  let rest = search_from k off x.ie_next
  search_indirect x off rest

-- Inode::getBlock
unfoldable pub get_block : Inode → ℕ → M (Option ℕ)
unfolding search_from
get_block i off = elim (find_extent (direct_num i.dinode) i.dinode.di_direct_extent off) [
  | hit e ↦ pure (some (block_at e off))
  | Search.overrun ↦ λ s. fault
  | missed ↦
      if leb i.dinode.di_nextents max_dinode_direct
      then pure none
      else search_from i.dinode.di_nextents off i.dinode.di_root_ind_ext
]

-- The caller uses the block number, set or not.
unfoldable pub known_block : Option ℕ → M ℕ
known_block none s = fault
known_block (some b) s = ok b s

-- one indirect block of the loop of insBlock, with what follows it
unfoldable pub ins_indirect : ℕ → IndExt → Dext → M (Option (ℕ × IndExt)) → M (Option (ℕ × IndExt))
ins_indirect ind_off x de rest = elim (merge_extent x.ie_num x.ie_dext de) [
  | merged es ↦
      if ind_off == 0
      then pure none
      else (do write_block (ind_ext (record x { ie_dext = es }) ∷ []) ind_off; pure none)
  | Merged.overrun ↦ λ s. fault
  | unmatched ↦ if x.ie_next == tarblk_none then pure (some (ind_off, x)) else rest
]

-- `none` after a merge, else the last indirect block
unfoldable pub ins_walk : ℕ → Dext → ℕ → M (Option (ℕ × IndExt))
unfolding ins_indirect
ins_walk zero de ind_off = λ s. out_of_fuel
ins_walk (suc k) de ind_off = do
  buf ← read_block ind_off
  x ← as_ind_ext buf
  let rest = ins_walk k de x.ie_next
  ins_indirect ind_off x de rest

-- `getblock:` behind seventeen extents and no indirect block
unfoldable pub ins_first : Dinode → Dext → M Dinode
ins_first d de = do
  new_ind_off ← alloc_block iex_data
  buf ← read_block new_ind_off
  write_block (ind_ext (new_ind_ext de) ∷ []) new_ind_off
  pure (record d { di_root_ind_ext = new_ind_off; di_nextents = add64 d.di_nextents 1 })

-- `getblock:` behind the last indirect block
unfoldable pub ins_next : Dinode → ℕ → IndExt → Dext → M Dinode
ins_next d ind_off x de = do
  new_ind_off ← alloc_block iex_data
  buf ← read_block new_ind_off
  write_block (ind_ext (record x { ie_next = new_ind_off }) ∷ []) ind_off
  write_block (ind_ext (new_ind_ext de) ∷ []) new_ind_off
  pure (record d { di_nextents = add64 d.di_nextents 1 })

unfoldable pub ins_behind : Dinode → Dext → Option (ℕ × IndExt) → M Dinode
unfolding ins_next
ins_behind d de none = pure d
ins_behind d de (some (ind_off, x)) =
    if ltb x.ie_num max_indext
    then (do
      write_block
          (ind_ext (record x { ie_dext = set x.ie_dext x.ie_num de; ie_num = x.ie_num + 1 }) ∷ [])
          ind_off
      pure d)
    else ins_next d ind_off x de

-- the dinode after insBlock
unfoldable pub ins_dinode : Dinode → Dext → M Dinode
unfolding ins_first ins_walk ins_behind
ins_dinode d de = elim (merge_extent (direct_num d) d.di_direct_extent de) [
  | merged es ↦ pure (record d { di_direct_extent = es })
  | Merged.overrun ↦ λ s. fault
  | unmatched ↦
      if d.di_nextents == max_dinode_direct
      then ins_first d de
      else if ltb d.di_nextents max_dinode_direct
      then pure (append_direct d de)
      else (do last ← ins_walk d.di_nextents de d.di_root_ind_ext; ins_behind d de last)
]

-- Inode::insBlock
unfoldable pub ins_block : Inode → Dext → M Inode
ins_block i de = do d ← ins_dinode i.dinode de; pure (record i { is_mod = true; dinode = d })

-- Inode::sync
unfoldable pub sync : Inode → M (Unit {0})
sync i = if i.is_mod then write_block (dinode i.dinode ∷ []) i.blkno else pure tt

-- ===== src/Maker/Agree.antt =====
-- `Inode::getBlock` of the C++ version finds what `getDataBlock` of the C version finds.
use tarfs.Base.{
  ℕ, zero, suc, ◌+◌, ◌≡◌, refl, Bool, true, false, inl, inr, Bool-cases, Option, none, some, ltb,
  leb, ◌==◌, if◌then◌else◌,
}
use tarfs.Meta.{IndExt, max_dinode_direct, tarblk_none}
use tarfs.Manager.{
  Block, header, contents, free_data, dinode, ind_ext, dir_data, sblock, Manager, read_data,
  do_rollback,
}
use tarfs.Extent.{
  Search, hit, missed, find_extent, block_at, indirect_step, get_indirect, direct_num,
  get_data_block,
}
use tarfs.Maker.{
  Inode, Maker, Run, ok, fault, out_of_fuel, M, pure, and_then, rollback, read_block, as_ind_ext,
}
use tarfs.Maker.Extents.{search_indirect, search_from, get_block}

-- The end of a call of the C version, as the C++ version has it: an error leaves the block number unset.
abbrev pub as_maker : tarfs.Manager.Run ℕ → Maker → Run (Option ℕ)
as_maker (tarfs.Manager.ok b m) s = ok (some b) s
as_maker (tarfs.Manager.fail e m) s = ok none s
as_maker (tarfs.Manager.exited m) s = rollback s
as_maker tarfs.Manager.fault s = fault
as_maker tarfs.Manager.out_of_fuel s = out_of_fuel

-- `m` at the file of `s`
abbrev pub at_file : Maker → Manager → Manager
at_file s m = record m { world = s.world }

module _ (s : Maker) (m : Manager) where
  abbrev Agree : M (Option ℕ) → tarfs.Manager.M ℕ → Type 0
  Agree f g = f s ≡ as_maker (g (at_file s m)) s

  Agree-search :
      (r : Search) (off : ℕ) (f : M (Option ℕ)) (g : tarfs.Manager.M ℕ)
      → Agree f g
      → Agree
          (elim r as (λ x. M (Option ℕ)) [
            | hit e ↦ pure (some (block_at e off))
            | Search.overrun ↦ λ s. fault
            | missed ↦ f
          ])
          (elim r as (λ x. tarfs.Manager.M ℕ) [
            | hit e ↦ tarfs.Manager.pure (block_at e off)
            | Search.overrun ↦ λ m. tarfs.Manager.fault
            | missed ↦ g
          ])
  Agree-search (hit e) off f g h = refl
  Agree-search Search.overrun off f g h = refl
  Agree-search missed off f g h = h

  Agree-if :
      (b : Bool) (f f' : M (Option ℕ)) (g g' : tarfs.Manager.M ℕ)
      → Agree f g
      → Agree f' g'
      → Agree (if b then f else f') (if b then g else g')
  Agree-if true f f' g g' h h' = h
  Agree-if false f f' g g' h h' = h'

  Agree-ind_ext :
      (b : Block) (f : IndExt → M (Option ℕ)) (g : IndExt → tarfs.Manager.M ℕ)
      → ((x : IndExt) → Agree (f x) (g x))
      → Agree
          (λ s. and_then (as_ind_ext b s) f)
          (λ m. tarfs.Manager.and_then (tarfs.Manager.as_ind_ext b m) g)
  unfolding as_ind_ext tarfs.Manager.as_ind_ext
  Agree-ind_ext (ind_ext x) f g h = h x
  Agree-ind_ext _ f g h = refl

  Agree-read :
      (p : ℕ) (f : Block → M (Option ℕ)) (g : Block → tarfs.Manager.M ℕ)
      → ((b : Block) → Agree (f b) (g b))
      → Agree (λ s. and_then (read_block p s) f) (λ m. tarfs.Manager.and_then (read_data p m) g)
  unfolding read_block rollback read_data do_rollback
  Agree-read p f g h = elim (Bool-cases (ltb s.world.size (p + 1))) [
    | inl e ↦ rw (read_block, read_data, e) refl
    | inr e ↦ rw (read_block, read_data, e) (h (s.world.blocks p))
  ]

  search_from-get_indirect : (k off p : ℕ) → Agree (search_from k off p) (get_indirect k off p)
  unfolding search_from search_indirect get_indirect indirect_step
  search_from-get_indirect zero off p = refl
  search_from-get_indirect (suc k) off p = Agree-read p _ _ λ b. Agree-ind_ext b _ _ λ x.
      Agree-search (find_extent x.ie_num x.ie_dext off) off _ _ (
        Agree-if (x.ie_next == tarblk_none) _ _ _ _ refl (search_from-get_indirect k off x.ie_next))

-- On the same file and inode, whatever they hold, `getBlock` of the C++ version ends as `getDataBlock` of
-- the C version does: with the same block, without one where the other returns an error, or by the rollback
-- where the other rolls back. Where it returns, it has changed nothing.
pub get_block-get_data_block :
    (i : Inode) (off : ℕ) (s : Maker) (m : Manager)
    → get_block i off s ≡ as_maker (get_data_block i.dinode off (at_file s m)) s
unfolding get_block get_data_block
get_block-get_data_block i off s m =
    Agree-search s m (find_extent (direct_num i.dinode) i.dinode.di_direct_extent off) off _ _ (
      Agree-if s m (leb i.dinode.di_nextents max_dinode_direct) _ _ _ _ refl
        (search_from-get_indirect s m i.dinode.di_nextents off i.dinode.di_root_ind_ext))

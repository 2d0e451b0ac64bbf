-- ===== src/Knl/Blocks.antt =====
-- `tarfs_getDataBlock` computes the map of the inode's extents, as `getDataBlock` of mkfs does.
use tarfs.Base.{
  ℕ, zero, suc, ◌+◌, ◌≤◌, ◌<◌, ◌≡◌, ◌≢◌, ◌∙◌, true, false, Option, none, some, List, [], ◌++◌,
  arith, All, All-split, leb, length, ne→==, take-all,
}
use mathlib.Core.List.{append-nil}
use tarfs.Meta.{Dext, IndExt, Dinode, max_dinode_direct, tarblk_none}
use tarfs.Manager.{Block, ind_ext, Manager}
use tarfs.Extent.{find_extent}
use tarfs.Extent.Spec.{lookup}
use tarfs.Extent.Chain.{
  Link, used, links_extents, Chain, last, more, Fits, Listed, direct, indirect, Inside, Holds,
}
use tarfs.Extent.Read.{Finds, found, not_found, find_extent-Finds, lookup-append}
use tarfs.Knl.{
  Device, Io, Run, ok, fail, einval, K, lnx_io_init, lnx_bread, lnx_bput, release, as_ind_ext,
  indirect_step, get_indirect, direct_num, tarfs_get_data_block,
}

-- What `tarfs_getDataBlock` returns, by the map.
abbrev pub reply : Option ℕ → Io → Run ℕ
reply none io = fail einval io
reply (some b) io = ok b io

abbrev or_else : Option ℕ → Io → Run ℕ → Run ℕ
or_else none io rest = rest
or_else (some b) io rest = ok b io

abbrev pub holding : Block → ℕ → Io
holding buf refs = record { io_bh = some buf; refs = refs + 1 }

-- The device is the file that mkfs leaves.
abbrev pub Mounted : Manager → Device → Type 0
Mounted m dev = (p : ℕ) → p < m.m_size → dev p ≡ some (m.world.blocks p)

pub lnx_bput-holding : (buf : Block) (refs : ℕ) → lnx_bput (holding buf refs) ≡ lnx_io_init refs
unfolding lnx_bput
lnx_bput-holding buf refs = ground arith

pub lnx_bread-some :
    (dev : Device) {buf : Block} (p refs : ℕ)
    → dev p ≡ some buf
    → lnx_bread dev p (lnx_io_init refs) ≡ ok buf (holding buf refs)
unfolding lnx_bread
lnx_bread-some dev p refs h = rw (lnx_bread, h)

module _ (x : IndExt) (off : ℕ) (rest : K ℕ) (buf : Block) (refs : ℕ) where
  indirect_step-last :
      {b : Option ℕ}
      → Finds off (find_extent x.ie_num x.ie_dext off) b
      → x.ie_next ≡ tarblk_none
      → release (indirect_step x off rest (holding buf refs)) ≡ reply b (lnx_io_init refs)
  unfolding indirect_step release
  indirect_step-last (found e s b) h = rw (indirect_step, s, b, lnx_bput-holding)
  indirect_step-last (not_found s b) h = rw (indirect_step, s, b, h, lnx_bput-holding)

  indirect_step-more :
      {b : Option ℕ}
      → Finds off (find_extent x.ie_num x.ie_dext off) b
      → x.ie_next ≢ tarblk_none
      → release (indirect_step x off rest (holding buf refs))
        ≡ or_else b (lnx_io_init refs) (release (rest (lnx_io_init refs)))
  unfolding indirect_step release
  indirect_step-more (found e s b) h = rw (indirect_step, s, b, lnx_bput-holding)
  indirect_step-more (not_found s b) h =
      rw (indirect_step, s, b, ne→== x.ie_next tarblk_none h, lnx_bput-holding)

reply-append :
    (es fs : List Dext) (off : ℕ) (io : Io)
    → or_else (lookup es off) io (reply (lookup fs off) io) ≡ reply (lookup (es ++ fs) off) io
reply-append es fs off io = rw lookup-append (ground arith)

module _ (m : Manager) (dev : Device) (mounted : Mounted m dev) (refs : ℕ) where
  get_indirect-lookup :
      (k off : ℕ) {p : ℕ} {ys : List Link}
      → Chain m.world.blocks p ys
      → All (Inside m) ys
      → All Fits (links_extents ys)
      → length ys ≤ k
      → release (get_indirect dev k off p (lnx_io_init refs))
        ≡ reply (lookup (links_extents ys) off) (lnx_io_init refs)
  unfolding get_indirect as_ind_ext
  get_indirect-lookup zero off (last at num end) inside fits fuel = absurd (omega arith)
  get_indirect-lookup zero off (more at num ne chain) inside fits fuel = absurd (omega arith)
  get_indirect-lookup (suc k) off (last {p} {x} at num end) inside fits fuel =
      let (mine, others) = All-split Fits (used x) [] fits in
      rw (get_indirect, lnx_bread-some dev p refs (mounted p inside.0.1), at, append-nil)
        (indirect_step-last x off (get_indirect dev k off x.ie_next) (ind_ext x) refs
          (find_extent-Finds x.ie_num x.ie_dext off (omega arith) mine) end)
  get_indirect-lookup (suc k) off (more {p} {x} {ys} at num ne chain) inside fits fuel =
      let (mine, others) = All-split Fits (used x) (links_extents ys) fits in
      rw (get_indirect, lnx_bread-some dev p refs (mounted p inside.0.1), at)
        (indirect_step-more x off (get_indirect dev k off x.ie_next) (ind_ext x) refs
            (find_extent-Finds x.ie_num x.ie_dext off (omega arith) mine) ne
          ∙ rw (get_indirect-lookup k off chain inside.1 others (omega arith))
              (reply-append (used x) (links_extents ys) off (lnx_io_init refs)))

  direct-Listed :
      (ip : Dinode) (off : ℕ) {ys : List Link} {es : List Dext}
      → Listed m.world.blocks ip ys es
      → length ip.di_direct_extent ≡ max_dinode_direct
      → All Fits es
      → All (Inside m) ys
      → tarfs_get_data_block dev ip off (lnx_io_init refs)
        ≡ reply (lookup es off) (lnx_io_init refs)
  unfolding tarfs_get_data_block release lnx_bput
  direct-Listed ip off (direct few e) array fits inside =
      let n : direct_num ip ≡ ip.di_nextents = ground arith in
      let test : leb ip.di_nextents max_dinode_direct ≡ true = ground arith in
      rw (e, tarfs_get_data_block, n)
        (elim (find_extent-Finds ip.di_nextents ip.di_direct_extent off (omega arith)
          (rw e at fits)) [ found f s b ↦ rw (s, b) | not_found s b ↦ rw (s, b, test) ])
  direct-Listed ip off (indirect {ys} many count chain e) array fits inside =
      let n : direct_num ip ≡ max_dinode_direct = ground arith in
      let test : leb ip.di_nextents max_dinode_direct ≡ false = ground arith in
      let (mine, others) = All-split Fits ip.di_direct_extent (links_extents ys) (rw e at fits) in
      let whole = take-all ip.di_direct_extent max_dinode_direct array in
      rw
        (
          e,
          tarfs_get_data_block,
          n,
          ← reply-append ip.di_direct_extent (links_extents ys) off (lnx_io_init refs),
        )
        (elim (find_extent-Finds max_dinode_direct ip.di_direct_extent off (omega arith)
          (rw whole mine)) [
            | found f s b ↦ rw (s, rw whole at b)
            | not_found s b ↦
                rw (s, rw whole at b, test)
                  (get_indirect-lookup ip.di_nextents off chain inside others (omega arith))
          ])

  -- Let the device be the file that mkfs has written, and let an inode hold the extents `es` there.
  -- Then `tarfs_getDataBlock` returns the block that the extents map `off` to, and EINVAL if they map
  -- it to none; and it holds no more buffers than before.
  pub tarfs_get_data_block-lookup :
      (ip : Dinode) (off : ℕ) {ys : List Link} {es : List Dext}
      → Holds m ip ys es
      → tarfs_get_data_block dev ip off (lnx_io_init refs)
        ≡ reply (lookup es off) (lnx_io_init refs)
  tarfs_get_data_block-lookup ip off holds =
      direct-Listed ip off holds.listed holds.array holds.fits holds.inside

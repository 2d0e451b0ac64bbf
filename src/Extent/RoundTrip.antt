-- ===== src/Extent/RoundTrip.antt =====
-- What `insertDataExtent` stores, `getDataBlock` finds.
use tarfs.Base.{
  ℕ, ◌+◌, ◌-◌, ◌^◌, ◌<◌, ◌≡◌, ◌∙◌, ap, Option, some, List, ◌&&◌, All, leb, ltb, if◌then◌else◌,
}
use tarfs.Meta.{Dext, Dinode}
use tarfs.Manager.{Manager}
use tarfs.Manager.Ensures.{Returns, Returns-mono}
use tarfs.Alloc.Pool.{Pool, IsPool}
use tarfs.Alloc.Refine.{HasRoom}
use tarfs.Extent.{get_data_block, insert_data_extent}
use tarfs.Extent.Spec.{lookup, Aligned, Behind, lookup-insert}
use tarfs.Extent.Chain.{Link, Fits, Holds}
use tarfs.Extent.Read.{answer, get_data_block-lookup}
use tarfs.Extent.Grow.{Owned}
use tarfs.Extent.Insert.{insert_data_extent-insert}

-- The map `es` with the blocks of `dep`
abbrev pub extended_lookup : Dext → List Dext → ℕ → Option ℕ
extended_lookup dep es off =
    if leb dep.de_off off && ltb off (dep.de_off + dep.de_nblks)
    then some (dep.de_blkno + (off - dep.de_off))
    else lookup es off

-- Let the manager's lists of free blocks be in order (`IsPool`) behind an archive of at least a block, and let
-- the device have room for 128 blocks more and `malloc` 64 KiB to give. Let an inode with fewer than 2^63
-- extents hold the extents `es`, its indirect blocks being none of the free ones, and let `dep` begin behind
-- them in the file, its numbers fitting in 64 bits; an extent that ends on the device where `dep` begins may
-- only be the one that ends in the file where `dep` begins. Then `insertDataExtent` returns without an error,
-- `getDataBlock` finds afterwards each block of `dep` in `dep`, and each other block where it was, or answers
-- EINVAL as before.
pub get_data_block-insert_data_extent :
    {m : Manager} {p : Pool} {ys : List Link} {es : List Dext} (ip : Dinode) (dep : Dext)
    → IsPool m p
    → 0 < m.m_orgsize
    → HasRoom m
    → Holds m ip ys es
    → All (Owned p) ys
    → ip.di_nextents < 2 ^ 63
    → All (Aligned dep) es
    → All (Behind dep) es
    → Fits dep
    → Returns
        (λ ip' m'. (off : ℕ) → get_data_block ip' off m' ≡ answer (extended_lookup dep es off) m')
        (insert_data_extent ip dep m)
get_data_block-insert_data_extent {es} ip dep pool archive room holds owned small aligned behind
      fit =
    Returns-mono (insert_data_extent-insert ip dep pool archive room holds owned small aligned fit)
      λ ip' m' done off.
        get_data_block-lookup done.pool.sound ip' off done.holds
        ∙ ap (λ t. answer t m') (lookup-insert dep es off aligned behind)

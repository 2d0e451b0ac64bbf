-- ===== src/Examples/Extent.antt =====
-- An inode whose seventeen extents lie apart, so that one more needs an indirect block.
use tarfs.Base.{ℕ, zero, suc, ◌+◌, ◌*◌, ◌≡◌, refl, List, [], ◌∷◌, arith}
use tarfs.Meta.{Dext, Dinode, zero_dinode}
use tarfs.Manager.Ensures.{Returns}
use tarfs.Extent.{get_data_block, insert_data_extent}
use tarfs.Extent.Spec.{lookup}
use tarfs.Extent.Chain.{Holds, direct}
use tarfs.Extent.Read.{answer, get_data_block-lookup}
use tarfs.Extent.Grow.{Inserted}
use tarfs.Extent.Spec.{insert}
use tarfs.Extent.Insert.{insert_data_extent-insert}
use tarfs.Extent.RoundTrip.{extended_lookup, get_data_block-insert_data_extent}
use tarfs.Examples.{start, empty_pool, start-IsPool, start-HasRoom}

-- one block every second block
abbrev pub scattered : ℕ → ℕ → List Dext
scattered off zero = []
scattered off (suc n) =
    record { de_off = off; de_blkno = 600 + 2 * off; de_nblks = 1 } ∷ scattered (off + 1) n

abbrev pub full_inode : Dinode
full_inode = record zero_dinode { di_nextents = 17; di_direct_extent = scattered 0 17 }

abbrev new_extent : Dext
new_extent = record { de_off = 17; de_blkno = 700; de_nblks = 3 }

pub full-Holds : Holds start full_inode [] (scattered 0 17)
full-Holds = record {
  array = refl;
  fits = omega arith;
  inside = tt;
  unique = tt;
  listed = direct (omega arith) refl;
}

get_data_block-lookup_example :
    get_data_block full_inode 9 start ≡ answer (lookup (scattered 0 17) 9) start
get_data_block-lookup_example = get_data_block-lookup start-IsPool.sound full_inode 9 full-Holds

insert_data_extent-insert_example :
    Returns
      (Inserted start empty_pool [] (insert new_extent (scattered 0 17)))
      (insert_data_extent full_inode new_extent start)
insert_data_extent-insert_example =
    insert_data_extent-insert full_inode new_extent start-IsPool (omega arith) start-HasRoom
      full-Holds tt (omega arith) (omega arith) (omega arith)

get_data_block-insert_data_extent_example :
    Returns
      (λ ip' m'.
        (off : ℕ)
        → get_data_block ip' off m' ≡ answer (extended_lookup new_extent (scattered 0 17) off) m')
      (insert_data_extent full_inode new_extent start)
get_data_block-insert_data_extent_example =
    get_data_block-insert_data_extent full_inode new_extent start-IsPool (omega arith) start-HasRoom
      full-Holds tt (omega arith) (omega arith) (omega arith) (omega arith)

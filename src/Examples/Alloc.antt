-- ===== src/Examples/Alloc.antt =====
-- The allocator at an archive of four blocks.
use tarfs.Base.{refl}
use tarfs.Manager.Ensures.{Returns}
use tarfs.Alloc.{dirdata, get_free_dirdata, alloc_data, flist_of}
use tarfs.Alloc.Pool.{pool_take}
use tarfs.Alloc.Refine.{Takes, alloc_data-pool_take}
use tarfs.Examples.{start, empty_pool, start-IsPool, start-HasRoom}

alloc_data-pool_take_example :
    Returns (Takes start (pool_take dirdata empty_pool)) (alloc_data get_free_dirdata start)
unfolding flist_of
alloc_data-pool_take_example =
    alloc_data-pool_take {l = dirdata} get_free_dirdata start-IsPool start-HasRoom refl

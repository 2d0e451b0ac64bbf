-- ===== src/Examples/Knl.antt =====
-- The device of the examples, mounted.
use tarfs.Base.{◌≡◌, refl, some}
use tarfs.Knl.{Device, lnx_io_init, tarfs_get_data_block}
use tarfs.Knl.Blocks.{reply, tarfs_get_data_block-lookup}
use tarfs.Knl.Dir.{FileTypes, get_dtype}
use tarfs.Knl.Dtype.{get_dtype-ftype_dinode2dir}
use tarfs.Meta.{ftype_dinode2dir, tarfs_ifdir}
use tarfs.Extent.Spec.{lookup}
use tarfs.Examples.{start}
use tarfs.Examples.Extent.{scattered, full_inode, full-Holds}

abbrev device : Device
device = λ p. some (start.world.blocks p)

tarfs_get_data_block-lookup_example :
    tarfs_get_data_block device full_inode 9 (lnx_io_init 0)
    ≡ reply (lookup (scattered 0 17) 9) (lnx_io_init 0)
tarfs_get_data_block-lookup_example =
    tarfs_get_data_block-lookup start device (λ p h. refl) 0 full_inode 9 full-Holds

-- the values of the kernel's `linux/fs.h`
abbrev file_types : FileTypes
file_types = record { dt_unknown = 0; dt_dir = 4; dt_reg = 8; dt_lnk = 10 }

get_dtype-ftype_dinode2dir_example : get_dtype file_types (ftype_dinode2dir tarfs_ifdir) ≡ 0
get_dtype-ftype_dinode2dir_example = get_dtype-ftype_dinode2dir file_types tarfs_ifdir

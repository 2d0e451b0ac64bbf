-- ===== src/Examples/Image.antt =====
-- The image that the C++ mkfs makes of an archive without a file.
use tarfs.Base.{ℕ, Bool, true, false, ◌≡◌, refl, ◌<◌, arith}
use tarfs.Alloc.{free_image, alloc_free_data, pop_free, alloc_data, flist_of, take_free}
use tarfs.Inode.{
  alloc_free_dinode, alloc_dinode, alloc_dinode_data, start_dinode, set_new_dir_entry,
}
use tarfs.Extent.{insert_data_extent, merge_extent, direct_num}
use tarfs.Manager.{World, Manager, header, write_data, read_data, as_free}
use tarfs.Manager.Archive.{Tarred}
use tarfs.Maker.{
  Maker, Run, ok, exited, fault, out_of_fuel, pwrite, grow_to, write_block, read_block,
}
use tarfs.Maker.Space.{alloc_block, new_chunk}
use tarfs.Maker.Files.{initialize, new_inode}
use tarfs.Maker.Extents.{ins_block, ins_dinode, sync}
use tarfs.Maker.Factory.{init_factory, alloc_inode}
use tarfs.Maker.Parser.{get_file}
use tarfs.Maker.Main.{new_maker, mkfs_tarfs, make_root, is_fresh}
use tarfs.Maker.Reader.{detach_tarfs}
use tarfs.Maker.Detach.{Detaches, IsLonger, detach_tarfs-mkfs_tarfs, detach_tarfs-mkfs}
use tarfs.Maker.Archive.{IsRestored}
use tarfs.Maker.Sealed.{mkfs_tarfs-IsSealed}
use tarfs.Mkfs.{make_inodes, init_mkfs, mkfs}
use tarfs.Mkfs.Sealed.{Counts, mkfs-Counts}
use tarfs.Manager.Image.{IsSealed}
use tarfs.Examples.{start}
use tarfs.Examples.Mkfs.{one_file, end_header}

abbrev no_file : World
no_file = record one_file { blocks = λ b. header end_header }

no_file-Tarred : (b : ℕ) → b < 3 → Tarred (no_file.blocks b)
no_file-Tarred b h = tt

abbrev has_ended : Run (Unit {0}) → Bool
has_ended (ok u s) = true
has_ended _ = false

abbrev end_of : Run (Unit {0}) → Maker
end_of (ok u s) = s
end_of _ = new_maker no_file 0 false

end_of-ok : (r : Run (Unit {0})) → has_ended r ≡ true → r ≡ ok tt (end_of r)
end_of-ok (ok u s) e = refl
end_of-ok (exited s) e = absurd cc
end_of-ok fault e = absurd cc
end_of-ok out_of_fuel e = absurd cc

no_file_fresh : is_fresh no_file ≡ true
unfolding is_fresh
no_file_fresh = refl

mkfs_no_file : has_ended (mkfs_tarfs no_file 0 false) ≡ true
unfolding mkfs_tarfs make_root init_factory alloc_block new_chunk write_block pwrite grow_to
    ins_block alloc_inode free_image ins_dinode merge_extent direct_num initialize read_block
    new_inode get_file sync
mkfs_no_file = refl

abbrev made_image : Maker
made_image = end_of (mkfs_tarfs no_file 0 false)

mkfs_tarfs-IsSealed_example :
    IsSealed no_file made_image.world made_image.sb 0 × (made_image.sb.tarfs_free ≡ 3)
mkfs_tarfs-IsSealed_example =
    mkfs_tarfs-IsSealed no_file 0 false made_image no_file-Tarred (omega arith) no_file_fresh
      (end_of-ok (mkfs_tarfs no_file 0 false) mkfs_no_file)

detach_tarfs-mkfs_tarfs_example :
    Detaches (IsRestored no_file) made_image.world (detach_tarfs made_image.world false)
detach_tarfs-mkfs_tarfs_example =
    detach_tarfs-mkfs_tarfs no_file 0 false false made_image no_file-Tarred (omega arith)
      no_file_fresh (end_of-ok (mkfs_tarfs no_file 0 false) mkfs_no_file)

-- The mkfs in C on the same archive
abbrev c_ended : tarfs.Manager.Run (Unit {0}) → Bool
c_ended (tarfs.Manager.ok u m) = true
c_ended _ = false

abbrev c_end : tarfs.Manager.Run (Unit {0}) → Manager
c_end (tarfs.Manager.ok u m) = m
c_end _ = start

c_end-ok : (r : tarfs.Manager.Run (Unit {0})) → c_ended r ≡ true → r ≡ tarfs.Manager.ok tt (c_end r)
c_end-ok (tarfs.Manager.ok u m) e = refl
c_end-ok (tarfs.Manager.fail x m) e = absurd cc
c_end-ok (tarfs.Manager.exited m) e = absurd cc
c_end-ok tarfs.Manager.fault e = absurd cc
c_end-ok tarfs.Manager.out_of_fuel e = absurd cc

init_no_file : c_ended (init_mkfs no_file) ≡ true
unfolding init_mkfs make_inodes alloc_free_dinode alloc_free_data write_data pop_free read_data
    as_free insert_data_extent merge_extent direct_num alloc_dinode alloc_dinode_data start_dinode
    set_new_dir_entry alloc_data flist_of take_free
init_no_file = refl

made_no_file : c_ended (mkfs no_file) ≡ true
unfolding mkfs make_inodes alloc_free_dinode alloc_free_data write_data pop_free read_data as_free
    insert_data_extent merge_extent direct_num alloc_dinode alloc_dinode_data start_dinode
    set_new_dir_entry alloc_data flist_of take_free
made_no_file = refl

abbrev c_image : Manager
c_image = c_end (mkfs no_file)

mkfs-Counts_example : Counts no_file c_image.world 1
mkfs-Counts_example =
    mkfs-Counts no_file (c_end (init_mkfs no_file)) c_image no_file-Tarred (omega arith)
      (c_end-ok (init_mkfs no_file) init_no_file) (c_end-ok (mkfs no_file) made_no_file)

detach_tarfs-mkfs_example :
    Detaches (IsLonger 1 no_file) c_image.world (detach_tarfs c_image.world false)
detach_tarfs-mkfs_example =
    detach_tarfs-mkfs no_file (c_end (init_mkfs no_file)) c_image false no_file-Tarred (omega arith)
      (c_end-ok (init_mkfs no_file) init_no_file) (c_end-ok (mkfs no_file) made_no_file)

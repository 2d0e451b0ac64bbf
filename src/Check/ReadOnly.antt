-- ===== src/Check/ReadOnly.antt =====
-- What checkTarfs does to the file: it only reads, but a read behind the end calls `do_rollback`.
use Prim.Native.Nat.{bit_and}
use tarfs.Base.{
  ℕ, zero, suc, ◌+◌, ◌-◌, ◌%◌, ◌/◌, ◌≡◌, refl, ap, ◌∙◌, Bool, true, false, inl, inr, Bool-cases,
  Option, none, some, List, [], ◌∷◌, ltb, leb, ◌==◌, if◌then◌else◌,
}
use tarfs.Meta.{
  Direct, Dinode, Dext, tarfs_ifdir, tarfs_root_ino, tarblk_none, max_dinode_direct, tar_blocksize,
}
use tarfs.Manager.{
  Block, dinode, ind_ext, dir_data, sblock, World, Incore, Manager, Errno, Run, ok, fail, exited,
  fault, out_of_fuel, M, and_then, do_rollback, read_data, as_ind_ext, as_dinode, as_dir,
}
use tarfs.Extent.{
  Search, hit, missed, find_extent, indirect_step, get_indirect, direct_num, get_data_block,
}
use tarfs.Inode.{get_dinode}
use tarfs.Directory.{Cursor, load_entry}
use tarfs.Mkfs.{pread}
use tarfs.Check.{
  zero_incore, zero_manager, read_free, read_sblock, init, print_step, readdir_loop, tarfs_readdir,
  print_dir, check_tarfs,
}

abbrev emptied : ℕ → World → World
emptied n v = record v { size = n }

-- The file `w'` is `w`, truncated to nothing.
abbrev pub IsTruncated : World → World → Type 0
IsTruncated w w' = w' ≡ record w { size = 0 }

-- A call that returns leaves the file and its `m_orgsize` of 0, and one that exits truncates the file.
abbrev pub Unwritten : World → Manager → Type 0
Unwritten w m = (m.world ≡ w) × (m.m_orgsize ≡ 0)

pub data ReadsOnly (w : World) {A : Type 0} : Run A → Type 0 where
  on_ok : {a : A} {m : Manager} → Unwritten w m → ReadsOnly w (ok a m)
  on_fail : {e : Errno} {m : Manager} → Unwritten w m → ReadsOnly w (fail e m)
  on_exit : {m : Manager} → IsTruncated w m.world → ReadsOnly w (exited m)
  on_fault : ReadsOnly w fault
  on_fuel : ReadsOnly w out_of_fuel

module _ {w : World} {A B : Type 0} where
  ReadsOnly-bind :
      {r : Run A} {k : A → M B}
      → ReadsOnly w r
      → ((a : A) (m : Manager) → Unwritten w m → ReadsOnly w (k a m))
      → ReadsOnly w (and_then r k)
  ReadsOnly-bind (on_ok h) next = next _ _ h
  ReadsOnly-bind (on_fail h) next = on_fail h
  ReadsOnly-bind (on_exit h) next = on_exit h
  ReadsOnly-bind on_fault next = on_fault
  ReadsOnly-bind on_fuel next = on_fuel

module _ (w : World) {A : Type 0} where
  ReadsOnly-if :
      (b : Bool) (f g : M A) (m : Manager)
      → ReadsOnly w (f m)
      → ReadsOnly w (g m)
      → ReadsOnly w ((if b then f else g) m)
  ReadsOnly-if true f g m hf hg = hf
  ReadsOnly-if false f g m hf hg = hg

  ReadsOnly-search :
      (r : Search) (f : Dext → M A) (g : M A) (m : Manager)
      → ((e : Dext) → ReadsOnly w (f e m))
      → ReadsOnly w (g m)
      → ReadsOnly w
          ((elim r as (λ x. M A) [ hit e ↦ f e | Search.overrun ↦ λ m'. fault | missed ↦ g ]) m)
  ReadsOnly-search (hit e) f g m hf hg = hf e
  ReadsOnly-search Search.overrun f g m hf hg = on_fault
  ReadsOnly-search missed f g m hf hg = hg

module _ (w : World) (m : Manager) (h : Unwritten w m) where
  read_data-ReadsOnly : (blkno : ℕ) → ReadsOnly w (read_data blkno m)
  unfolding read_data do_rollback
  read_data-ReadsOnly blkno = elim (Bool-cases (ltb m.world.size (blkno + 1))) [
    | inl c ↦ rw (read_data, c) (on_exit (ap (emptied m.m_orgsize) h.0 ∙ ap (λ n. emptied n w) h.1))
    | inr c ↦ rw (read_data, c) (on_ok h)
  ]

  as_ind_ext-ReadsOnly : (b : Block) → ReadsOnly w (as_ind_ext b m)
  unfolding as_ind_ext
  as_ind_ext-ReadsOnly (ind_ext x) = on_ok h
  as_ind_ext-ReadsOnly _ = on_fault

  as_dinode-ReadsOnly : (b : Block) → ReadsOnly w (as_dinode b m)
  unfolding as_dinode
  as_dinode-ReadsOnly (dinode d) = on_ok h
  as_dinode-ReadsOnly _ = on_fault

  as_dir-ReadsOnly : (b : Block) → ReadsOnly w (as_dir b m)
  unfolding as_dir
  as_dir-ReadsOnly (dir_data es) = on_ok h
  as_dir-ReadsOnly _ = on_fault

get_indirect-ReadsOnly :
    (w : World) (k off ind_off : ℕ) (m : Manager)
    → Unwritten w m
    → ReadsOnly w (get_indirect k off ind_off m)
unfolding get_indirect indirect_step
get_indirect-ReadsOnly w zero off ind_off m h = on_fuel
get_indirect-ReadsOnly w (suc k) off ind_off m h =
    ReadsOnly-bind (read_data-ReadsOnly w m h ind_off) λ b m1 h1.
      ReadsOnly-bind (as_ind_ext-ReadsOnly w m1 h1 b) λ x m2 h2.
        ReadsOnly-search w (find_extent x.ie_num x.ie_dext off) _ _ m2 (λ e. on_ok h2)
          (ReadsOnly-if w (x.ie_next == tarblk_none) _ _ m2 (on_fail h2)
            (get_indirect-ReadsOnly w k off x.ie_next m2 h2))

get_data_block-ReadsOnly :
    (w : World) (ip : Dinode) (off : ℕ) (m : Manager)
    → Unwritten w m
    → ReadsOnly w (get_data_block ip off m)
unfolding get_data_block
get_data_block-ReadsOnly w ip off m h =
    ReadsOnly-search w (find_extent (direct_num ip) ip.di_direct_extent off) _ _ m (λ e. on_ok h)
      (ReadsOnly-if w (leb ip.di_nextents max_dinode_direct) _ _ m (on_fail h)
        (get_indirect-ReadsOnly w ip.di_nextents off ip.di_root_ind_ext m h))

get_dinode-ReadsOnly :
    (w : World) (ip : Incore) (m : Manager) → Unwritten w m → ReadsOnly w (get_dinode ip m)
unfolding get_dinode
get_dinode-ReadsOnly w ip m h =
    ReadsOnly-bind (get_data_block-ReadsOnly w m.m_free.i_dinode ip.i_ino m h) λ blkno m1 h1.
      ReadsOnly-bind (read_data-ReadsOnly w m1 h1 blkno)
        λ b m2 h2. ReadsOnly-bind (as_dinode-ReadsOnly w m2 h2 b) λ d m3 h3. on_ok h3

load_entry-ReadsOnly :
    (w : World) (parentp : Dinode) (off : ℕ) (c : Cursor) (m : Manager)
    → Unwritten w m
    → ReadsOnly w (load_entry parentp off c m)
unfolding load_entry
load_entry-ReadsOnly w parentp off c m h =
    ReadsOnly-if w (off % tar_blocksize == 0) _ _ m
      (ReadsOnly-bind (get_data_block-ReadsOnly w parentp (off / tar_blocksize) m h) λ blkno m1 h1.
        ReadsOnly-bind (read_data-ReadsOnly w m1 h1 blkno)
          λ b m2 h2. ReadsOnly-bind (as_dir-ReadsOnly w m2 h2 b) λ es m3 h3. on_ok h3)
      (on_ok h)

print_step-ReadsOnly :
    (w : World) (off : ℕ) (c : Cursor) (l : List Direct) (rest : ℕ → Cursor → M (List Direct))
    (m : Manager)
    → ((off' : ℕ) (c' : Cursor) → ReadsOnly w (rest off' c' m))
    → ReadsOnly w (print_step off (record c { dp = l }) rest m)
unfolding print_step
print_step-ReadsOnly w off c [] rest m h = on_fault
print_step-ReadsOnly w off c (dp ∷ next) rest m h = ReadsOnly-bind (h _ _) λ es m1 h1. on_ok h1

readdir_loop-ReadsOnly :
    (w : World) (k : ℕ) (parentp : Dinode) (off : ℕ) (c : Cursor) (m : Manager)
    → Unwritten w m
    → ReadsOnly w (readdir_loop k parentp off c m)
unfolding readdir_loop
readdir_loop-ReadsOnly w zero parentp off c m h =
    ReadsOnly-if w (ltb off parentp.di_size) _ _ m on_fuel (on_ok h)
readdir_loop-ReadsOnly w (suc k) parentp off c m h =
    ReadsOnly-if w (ltb off parentp.di_size) _ _ m
      (ReadsOnly-bind (load_entry-ReadsOnly w parentp off c m h) λ c' m1 h1.
        print_step-ReadsOnly w off c' c'.dp (readdir_loop k parentp) m1
          λ off' c''. readdir_loop-ReadsOnly w k parentp off' c'' m1 h1)
      (on_ok h)

print_dir-ReadsOnly :
    (w : World) (inode : Incore) (m : Manager) → Unwritten w m → ReadsOnly w (print_dir inode m)
unfolding print_dir tarfs_readdir
print_dir-ReadsOnly w inode m h =
    ReadsOnly-if w (bit_and inode.i_dinode.di_mode tarfs_ifdir == 0) _ _ m (on_ok h) (
      ReadsOnly-bind (readdir_loop-ReadsOnly w inode.i_dinode.di_size inode.i_dinode 0 _ m h)
        λ es m1 h1. on_ok h1)

read_free-ReadsOnly :
    (w : World) (b : Option Block) (m : Manager) → Unwritten w m → ReadsOnly w (read_free b m)
unfolding read_free
read_free-ReadsOnly w none m h = on_ok h
read_free-ReadsOnly w (some (dinode d)) m h = on_ok h
read_free-ReadsOnly w (some _) m h = on_fault

read_sblock-ReadsOnly :
    (w : World) (b : Option Block) (m : Manager) → Unwritten w m → ReadsOnly w (read_sblock b m)
unfolding read_sblock
read_sblock-ReadsOnly w none m h = on_ok h
read_sblock-ReadsOnly w (some (sblock sb)) m h =
    read_free-ReadsOnly w (pread sb.tarfs_free m.world)
      (record m { m_sb = sb; m_root = zero_incore 0 tarfs_root_ino }) h
read_sblock-ReadsOnly w (some _) m h = on_fault

-- checkTarfs writes no block of the file that it prints: if it returns, with or without an error, the file
-- is what it was. But if it exits, which it does by `do_rollback` where it is to read a block behind the
-- file's end, the whole file is truncated to nothing, for its `m_orgsize` is 0.
pub check_tarfs-ReadsOnly : (w : World) (ino : ℕ) → ReadsOnly w (check_tarfs w ino)
unfolding check_tarfs init
check_tarfs-ReadsOnly w ino =
    ReadsOnly-bind (read_sblock-ReadsOnly w (pread (w.size - 1) w) (zero_manager w) (refl, refl))
      λ u m h.
        ReadsOnly-bind (get_dinode-ReadsOnly w _ m h)
          λ inode m1 h1. print_dir-ReadsOnly w inode m1 h1

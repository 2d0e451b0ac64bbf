-- ===== src/Knl/Open.antt =====
-- Opening by name: `__tarfs_lookup` and `tarfs_iget` over the map of the inodes.
use tarfs.Base.{
  ℕ, ◌+◌, ◌%◌, ◌≤◌, ◌≢◌, ◌==◌, Bool-cases, inl, inr, arith, ◌*◌, ◌^◌, ◌<◌, ◌≡◌, refl, ap, ◌∙◌, Bool,
  true, Option, none, some, List, length,
}
use Prim.Native.Nat.{bit_and}
use tarfs.Meta.{
  tarfs_ifmt, tarfs_ifreg, tarfs_ifdir, tarfs_iflnk, Bytes, Direct, Dinode, Dext, tar_blocksize,
}
use tarfs.Manager.{dinode, Manager}
use tarfs.Extent.Spec.{lookup}
use tarfs.Extent.Chain.{Link, Holds}
use tarfs.Knl.{Device, Io, Run, ok, fail, enoent, lnx_io_init, lnx_bput, release}
use tarfs.Knl.Blocks.{Mounted, lnx_bread-some, lnx_bput-holding, tarfs_get_data_block-lookup}
use tarfs.Knl.Search.{DirBlocks, join, find_name, find_loop-find_name}
use tarfs.Knl.Inode.{
  Inode, Icache, i_new, IncoreSblock, nested, as_dinode, set_inode, Ops, file_ops, dir_ops,
  symlink_ops, no_ops, ops_of, tarfs_read_inode, tarfs_iget, tarfs_lookup,
}

-- What a released run was
record Released (A : Type 0) (r : Run A) (a : A) (refs : ℕ) : Type 0 where
  io : Io
  run : r ≡ ok a io
  balanced : lnx_bput io ≡ lnx_io_init refs

release-Released :
    {A : Type 0} (r : Run A) (a : A) (refs : ℕ)
    → release r ≡ ok a (lnx_io_init refs)
    → Released A r a refs
unfolding release
release-Released (ok a' io) a refs e = record { io = io; run = cc; balanced = cc }
release-Released (fail x io) a refs e = cc
release-Released Run.fault a refs e = cc
release-Released Run.out_of_fuel a refs e = cc

-- A call with an `io` of its own that holds no buffer at its end keeps the caller's.
nested-ok :
    {A : Type 0} (f : Io → Run A) (a : A) (io : Io)
    → ((r : ℕ) → f (lnx_io_init r) ≡ ok a (lnx_io_init r))
    → nested f io ≡ ok a io
unfolding nested
nested-ok f a io h = rw (nested, h io.refs) refl

tarfs_read_inode-set_inode :
    (m : Manager) (dev : Device) (i_sb : IncoreSblock) (ino b refs : ℕ) {ys : List Link}
    {es : List Dext} {dp : Dinode}
    → Mounted m dev
    → Holds m i_sb.free_dinode ys es
    → lookup es ino ≡ some b
    → b < m.m_size
    → m.world.blocks b ≡ dinode dp
    → tarfs_read_inode dev true i_sb ino (lnx_io_init refs)
      ≡ ok (set_inode ino dp) (lnx_io_init refs)
unfolding tarfs_read_inode as_dinode release
tarfs_read_inode-set_inode m dev i_sb ino b refs {dp} mounted holds at below stored =
    rw
      (
        tarfs_read_inode,
        tarfs_get_data_block-lookup m dev mounted refs i_sb.free_dinode ino holds,
        at,
        lnx_bread-some dev b refs (mounted b below ∙ ap some stored),
        lnx_bput-holding (dinode dp) refs,
      )
      refl

tarfs_iget-set_inode :
    (m : Manager) (dev : Device) (icache : Icache) (i_sb : IncoreSblock) (ino b : ℕ) (io : Io)
    {ys : List Link} {es : List Dext} {dp : Dinode}
    → Mounted m dev
    → Holds m i_sb.free_dinode ys es
    → icache ino ≡ i_new
    → lookup es ino ≡ some b
    → b < m.m_size
    → m.world.blocks b ≡ dinode dp
    → tarfs_iget dev icache true i_sb ino io ≡ ok (set_inode ino dp) io
unfolding tarfs_iget
tarfs_iget-set_inode m dev icache i_sb ino b io mounted holds new at below stored =
    rw (tarfs_iget, new)
      (nested-ok (tarfs_read_inode dev true i_sb ino) _ io
        λ r. tarfs_read_inode-set_inode m dev i_sb ino b r mounted holds at below stored)

-- The operations that an inode of this format gets
pub data OpsOf (fmt : ℕ) : Ops → Type 0 where
  for_file : fmt ≡ tarfs_ifreg → OpsOf fmt file_ops
  for_dir : fmt ≡ tarfs_ifdir → OpsOf fmt dir_ops
  for_symlink : fmt ≡ tarfs_iflnk → OpsOf fmt symlink_ops
  for_other : fmt ≢ tarfs_ifreg → fmt ≢ tarfs_ifdir → fmt ≢ tarfs_iflnk → OpsOf fmt no_ops

-- The inode of the VFS for the dinode `dp` with the number `ino`; the device has microseconds.
pub record IsInodeOf (ino : ℕ) (dp : Dinode) (i : Inode) : Type 0 where
  pub number : i.i_ino ≡ ino
  pub mode : i.i_mode ≡ dp.di_mode % 2 ^ 16
  pub owner : (i.i_uid ≡ dp.di_uid) × (i.i_gid ≡ dp.di_gid)
  pub links : i.i_nlink ≡ dp.di_nlink
  pub size : i.i_size ≡ dp.di_size
  pub atime : (1_000_000 * i.i_atime ≤ dp.di_atime) × (dp.di_atime < 1_000_000 * (i.i_atime + 1))
  pub ctime : (1_000_000 * i.i_ctime ≤ dp.di_ctime) × (dp.di_ctime < 1_000_000 * (i.i_ctime + 1))
  pub mtime : (1_000_000 * i.i_mtime ≤ dp.di_mtime) × (dp.di_mtime < 1_000_000 * (i.i_mtime + 1))
  pub stored : i.i_private ≡ dp
  pub operations : OpsOf (bit_and (dp.di_mode % 2 ^ 16) tarfs_ifmt) i.ops

ops_of-OpsOf : (mode : ℕ) → OpsOf (bit_and mode tarfs_ifmt) (ops_of mode)
unfolding ops_of
ops_of-OpsOf mode =
    let fmt = bit_and mode tarfs_ifmt in
    elim (Bool-cases (fmt == tarfs_ifreg)) [
      | inl r ↦ rw (ops_of, r) (for_file (ground arith))
      | inr nr ↦ elim (Bool-cases (fmt == tarfs_ifdir)) [
        | inl d ↦ rw (ops_of, nr, d) (for_dir (ground arith))
        | inr nd ↦ elim (Bool-cases (fmt == tarfs_iflnk)) [
          | inl l ↦ rw (ops_of, nr, nd, l) (for_symlink (ground arith))
          | inr nl ↦
              rw (ops_of, nr, nd, nl) (for_other (ground arith) (ground arith) (ground arith))
        ]
      ]
    ]

set_inode-IsInodeOf : (ino : ℕ) (dp : Dinode) → IsInodeOf ino dp (set_inode ino dp)
unfolding set_inode
set_inode-IsInodeOf ino dp = record {
  number = refl;
  mode = refl;
  owner = (refl, refl);
  links = refl;
  size = refl;
  atime = (omega arith, omega arith);
  ctime = (omega arith, omega arith);
  mtime = (omega arith, omega arith);
  stored = refl;
  operations = ops_of-OpsOf (dp.di_mode % 2 ^ 16);
}

-- The call returns an inode with `P`, and leaves the buffers that are held as they are.
pub data Gives (P : Inode → Type 0) (io : Io) : Run Inode → Type 0 where
  gives : {i : Inode} → P i → Gives P io (ok i io)

-- Let the inode of the inodes hold the extents `es` on a mounted device, let the inode `ino` not be in the
-- cache and its block, to which `es` maps the number, hold the dinode `dp`; and let `kmem_cache_alloc` give the
-- memory for it. Then `tarfs_iget` returns the inode of `dp`: with its number, owner, links, size and mode, its
-- times in whole seconds, and the operations for its format. It leaves the buffers that are held as they are.
pub tarfs_iget-IsInodeOf :
    (m : Manager) (dev : Device) (icache : Icache) (i_sb : IncoreSblock) (ino b : ℕ) (io : Io)
    {ys : List Link} {es : List Dext} {dp : Dinode}
    → Mounted m dev
    → Holds m i_sb.free_dinode ys es
    → icache ino ≡ i_new
    → lookup es ino ≡ some b
    → b < m.m_size
    → m.world.blocks b ≡ dinode dp
    → Gives (IsInodeOf ino dp) io (tarfs_iget dev icache true i_sb ino io)
tarfs_iget-IsInodeOf m dev icache i_sb ino b io {dp} mounted holds new at below stored =
    rw (tarfs_iget-set_inode m dev icache i_sb ino b io mounted holds new at below stored)
      (gives (set_inode-IsInodeOf ino dp))

-- What `__tarfs_lookup` returns
abbrev pub opened : (ℕ → Inode) → Option ℕ → ℕ → Run Inode
opened inode none refs = fail enoent (lnx_io_init refs)
opened inode (some ino) refs = ok (inode ino) (lnx_io_init refs)

lookup_found :
    (inode : ℕ → Inode) (found : Option ℕ) (get : ℕ → Io → Run Inode) (io : Io) (refs : ℕ)
    → lnx_bput io ≡ lnx_io_init refs
    → ((ino : ℕ) → found ≡ some ino → get ino io ≡ ok (inode ino) io)
    → release (
        (elim found as (λ x. Io → Run Inode) [ none ↦ λ io. fail enoent io | some ino ↦ get ino ])
          io)
      ≡ opened inode found refs
unfolding release
lookup_found inode none get io refs balanced h = ap (λ t. fail enoent t) balanced
lookup_found inode (some ino) get io refs balanced h =
    rw (h ino refl) (ap (λ t. ok (inode ino) t) balanced)

-- Let the blocks of a directory be filled by their entries and be found on the device, and let
-- `tarfs_iget` give the inode of the first entry that has the name. Then `__tarfs_lookup` returns that
-- inode, and ENOENT if no entry has the name; and it holds no more buffers than before. An entry has the name if
-- it is in use, its `d_namelen` is the name's length, and its bytes are those of the name.
pub tarfs_lookup-find_name :
    (dev : Device) (icache : Icache) (slab : Bool) (i_sb : IncoreSblock) (dir : Inode)
    (name : Bytes) (len refs : ℕ) (bs : List (List Direct)) (inode : ℕ → Inode)
    → dir.i_private.di_size < 2 ^ 63
    → DirBlocks dev dir.i_private 0 bs
    → dir.i_private.di_size ≡ tar_blocksize * length bs
    → ((ino : ℕ)
        → find_name name len (join bs) ≡ some ino
        → (io : Io) → tarfs_iget dev icache slab i_sb ino io ≡ ok (inode ino) io)
    → tarfs_lookup dev icache slab i_sb dir name len refs
      ≡ opened inode (find_name name len (join bs)) refs
unfolding tarfs_lookup
tarfs_lookup-find_name dev icache slab i_sb dir name len refs bs inode small blocks whole get =
    let found =
      release-Released _ _ refs
        (find_loop-find_name dev name len dir.i_private refs small bs blocks whole) in
    rw (tarfs_lookup, found.run)
      (lookup_found inode (find_name name len (join bs)) (tarfs_iget dev icache slab i_sb) found.io
        refs found.balanced λ ino e. get ino e found.io)

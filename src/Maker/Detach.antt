-- ===== src/Maker/Detach.antt =====
-- detachtarfs takes off what mkfs has put behind the archive.
use tarfs.Base.{
  ℕ, ◌+◌, ◌-◌, ◌%◌, ◌^◌, ◌≤◌, ◌<◌, ◌≡◌, refl, ap, ◌∙◌, sym, subst, Bool, true, false, inl, inr,
  Bool-cases, ltb, ◌==◌, if◌then◌else◌, arith,
}
use tarfs.Meta.{Sblock, tarsblock_magic, tar_blocksize, tarfs_root_ino}
use tarfs.Manager.{sblock, World}
use tarfs.Manager.Archive.{Tarred}
use tarfs.Maker.{Maker, Run, ok, exited, fault, out_of_fuel, M, pure, and_then}
use tarfs.Maker.Main.{is_fresh, mkfs_tarfs}
use tarfs.Maker.Archive.{IsRestored}
use tarfs.Maker.Reads.{rolled, Reads, read_block-Reads, load_inode-Reads, get_inode-Reads}
use tarfs.Maker.Reader.{
  new_reader, load, load_sblock, create_reader, get_sblock, truncate, cut_off, detach_tarfs,
}
use tarfs.Maker.Sealed.{mkfs_tarfs-IsSealed}
use tarfs.Manager.Image.{IsSealed}
use tarfs.Manager.{Manager}
use tarfs.Mkfs.{init_mkfs, mkfs}
use tarfs.Mkfs.Sealed.{counts, mkfs-Counts}

-- What FsReader::create makes of a file `w` that ends with the super block `sb`: an FsReader that has the
-- file's size and `sb`, if it returns.
pub data Opens (w : World) (sb : Sblock) : Run Bool → Type 0 where
  on_true : {s : Maker} → s.world ≡ w → s.blks ≡ w.size → s.sb ≡ sb → Opens w sb (ok true s)
  on_exit : {s : Maker} → s.world ≡ w → Opens w sb (exited s)
  on_fault : Opens w sb fault
  on_fuel : Opens w sb out_of_fuel

rolled_same : (w : World) (s : Maker) → s.world ≡ w → s.orgblks ≡ w.size → (rolled s).world ≡ w
rolled_same w s same size = ap (λ v. resized v s.orgblks) same ∙ ap (resized w) size
  where
    resized : World → ℕ → World
    resized v n = record v { size = n }

-- a read in a reader of `w`, and what is done with it
module _ {A : Type 0} {w : World} {sb : Sblock} {s : Maker} {P : A → Type 0} where
  Opens-bind :
      {r : Run A} (k : A → M Bool)
      → s.world ≡ w
      → s.orgblks ≡ w.size
      → Reads s P r
      → ((a : A) → P a → Opens w sb (k a s))
      → Opens w sb (and_then r k)
  Opens-bind k same size (Reads.on_ok p) next = next _ p
  Opens-bind k same size Reads.on_exit next = on_exit (rolled_same w s same size)
  Opens-bind k same size Reads.on_fault next = on_fault
  Opens-bind k same size Reads.on_fuel next = on_fuel

  -- where the call stands in another
  Opens-within :
      {B : Type 0} {r : Run A} (f : A → M B) (k : B → M Bool)
      → s.world ≡ w
      → s.orgblks ≡ w.size
      → Reads s P r
      → ((a : A) → P a → Opens w sb (and_then (f a s) k))
      → Opens w sb (and_then (and_then r f) k)
  Opens-within f k same size (Reads.on_ok p) next = next _ p
  Opens-within f k same size Reads.on_exit next = on_exit (rolled_same w s same size)
  Opens-within f k same size Reads.on_fault next = on_fault
  Opens-within f k same size Reads.on_fuel next = on_fuel

module _ (w : World) (sb : Sblock) (magic : sb.tarfs_magic ≡ tarsblock_magic) (unset : Bool) where
  load_sblock-Opens : Opens w sb (load_sblock (sblock sb) (new_reader w unset))
  unfolding load_sblock load
  load_sblock-Opens =
      let s = record (new_reader w unset) { sb = sb } in
      let known : (sb.tarfs_magic == tarsblock_magic) ≡ true = ground arith in
      rw known (
        Opens-within _ _ refl refl (load_inode-Reads s 0 0 sb.tarfs_free) λ i d.
          Opens-bind _ refl refl
            (get_inode-Reads (record s { free_inode = i }) tarfs_root_ino tarfs_root_ino)
            λ root e. on_true refl refl refl)

  create_reader-Opens : w.blocks (w.size - 1) ≡ sblock sb → Opens w sb (create_reader w unset)
  unfolding create_reader
  create_reader-Opens last =
      Opens-bind _ refl refl (read_block-Reads (new_reader w unset) (w.size - 1)) λ b e.
        subst (λ b. Opens w sb (load_sblock b (new_reader w unset))) (sym (e ∙ last))
          load_sblock-Opens

-- detachtarfs returns 0 and leaves a file for which `P` holds, or it does not return and leaves `image`.
pub data Detaches (P : World → Type 0) (image : World) : Run Bool → Type 0 where
  on_true : {s : Maker} → P s.world → Detaches P image (ok true s)
  on_exit : {s : Maker} → s.world ≡ image → Detaches P image (exited s)
  on_fault : Detaches P image fault
  on_fuel : Detaches P image out_of_fuel

-- The file `v` begins with the blocks of `w`, and has `n` more.
abbrev pub IsLonger : ℕ → World → World → Type 0
IsLonger n w v = (v.size ≡ w.size + n) × ((b : ℕ) → b < w.size → v.blocks b ≡ w.blocks b)

detached_size :
    (n blks size tarfs_size capacity : ℕ)
    → blks ≡ size
    → tarfs_size + n ≡ size
    → size ≤ capacity
    → capacity < 2 ^ 64
    → (blks + 2 ^ 64 - tarfs_size) % 2 ^ 64 ≡ n
detached_size n blks size tarfs_size capacity e counted small bounded = omega arith

has_room :
    (capacity room n size : ℕ) → capacity ≡ room → n ≤ size → size ≤ room → ltb capacity n ≡ false
has_room capacity room n size e grown small = ground arith

module _ (w image : World) (sb : Sblock) (uncounted : ℕ) (bounded : w.capacity < 2 ^ 64)
    (sealed : IsSealed w image sb uncounted) where
  opened-Detaches :
      (r : Run Bool)
      → Opens image sb r
      → Detaches
          (IsLonger uncounted w)
          image
          (and_then r (λ created. if created then cut_off else pure false))
  unfolding cut_off get_sblock truncate
  opened-Detaches (ok true s) (on_true same size known) =
      elim (Bool-cases (ltb s.world.memory tar_blocksize)) [
        | inl c ↦ rw c on_fault
        | inr c ↦
            let cut : (s.blks + 2 ^ 64 - s.sb.tarfs_size) % 2 ^ 64 ≡ w.size + uncounted =
              detached_size (w.size + uncounted) s.blks image.size s.sb.tarfs_size image.capacity
                size (ap (λ b. b.tarfs_size + (w.size + uncounted)) known ∙ sealed.counted)
                sealed.small (omega (arith, sealed.fits)) in
            let room : ltb s.world.capacity (w.size + uncounted) ≡ false =
              has_room s.world.capacity image.capacity (w.size + uncounted) image.size
                (ap (λ v. v.capacity) same) (omega (arith, sealed.counted)) sealed.small in
            rw (c, cut, room) (on_true (refl, λ b i. ap (λ v. v.blocks b) same ∙ sealed.kept b i))
      ]
  opened-Detaches (ok false s) h = elim h [ ]
  opened-Detaches (exited s) (on_exit same) = on_exit same
  opened-Detaches fault on_fault = on_fault
  opened-Detaches out_of_fuel on_fuel = on_fuel

  -- detachtarfs on such an image
  pub detach_tarfs-Detaches :
      (unset : Bool) → Detaches (IsLonger uncounted w) image (detach_tarfs image unset)
  unfolding detach_tarfs
  detach_tarfs-Detaches unset =
      opened-Detaches (create_reader image unset)
        (create_reader-Opens image sb sealed.magic unset sealed.last)

restored :
    (w image : World) (r : Run Bool)
    → Detaches (IsLonger 0 w) image r
    → Detaches (IsRestored w) image r
restored w image (ok true s) (on_true h) = on_true (omega (arith, h.0), h.1)
restored w image (ok false s) h = elim h [ ]
restored w image (exited s) (on_exit same) = on_exit same
restored w image fault on_fault = on_fault
restored w image out_of_fuel on_fuel = on_fuel

-- On the image that the C++ mkfs has made of a file of headers and data that tar has written, in a run that
-- has read no block as a struct that the block does not hold, detachtarfs returns 0 and leaves a file that has
-- the archive's size and blocks, or it leaves the image unchanged: it exits, is undefined or does not end, and
-- returns no error.
pub detach_tarfs-mkfs_tarfs :
    (w : World) (fsize : ℕ) (unset unset' : Bool) (s : Maker)
    → ((b : ℕ) → b < w.size → Tarred (w.blocks b))
    → w.capacity < 2 ^ 64
    → is_fresh w ≡ true
    → mkfs_tarfs w fsize unset ≡ ok tt s
    → Detaches (IsRestored w) s.world (detach_tarfs s.world unset')
detach_tarfs-mkfs_tarfs w fsize unset unset' s tarred bounded fresh made =
    let (sealed, _) = mkfs_tarfs-IsSealed w fsize unset s tarred bounded fresh made in
    restored w s.world (detach_tarfs s.world unset')
      (detach_tarfs-Detaches w s.world s.sb 0 bounded sealed unset')

-- On the image that the mkfs in C has made of a file of headers and data that tar has written, in a run that
-- has read no block as a struct that the block does not hold, detachtarfs returns 0 and leaves the archive with
-- one block of metadata behind it, the first one; or it leaves the image unchanged: it exits, is undefined or
-- does not end, and returns no error.
pub detach_tarfs-mkfs :
    (w : World) (m0 m : Manager) (unset : Bool)
    → ((b : ℕ) → b < w.size → Tarred (w.blocks b))
    → w.capacity < 2 ^ 64
    → init_mkfs w ≡ tarfs.Manager.ok tt m0
    → mkfs w ≡ tarfs.Manager.ok tt m
    → Detaches (IsLonger 1 w) m.world (detach_tarfs m.world unset)
detach_tarfs-mkfs w m0 m unset tarred bounded init made =
    elim (mkfs-Counts w m0 m tarred bounded init made) [
      | counts sb sealed ↦ detach_tarfs-Detaches w m.world sb 1 bounded sealed unset
    ]

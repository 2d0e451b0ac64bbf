-- ===== src/Knl/Search.antt =====
-- The loop of `__tarfs_lookup` finds the first entry with the name.
use tarfs.Base.{
  ℕ, zero, suc, ◌+◌, ◌*◌, ◌/◌, ◌%◌, ◌^◌, ◌≤◌, ◌<◌, ◌≡◌, ◌≢◌, refl, sym, ◌∙◌, true, false, inl, inr,
  Bool-cases, Option, none, some, List, [], ◌∷◌, ◌++◌, arith, All, ltb, ◌==◌, ne→==, length, add64,
  if◌then◌else◌,
}
use tarfs.Meta.{Bytes, Direct, Dinode, tar_blocksize}
use tarfs.Manager.{dir_data}
use tarfs.Directory.Slots.{record_len}
use tarfs.Directory.Names.{has_name, names-has_name}
use tarfs.Knl.{Device, Io, ok, K, lnx_io_init, lnx_bput, release, tarfs_get_data_block}
use tarfs.Knl.Blocks.{holding, lnx_bread-some, lnx_bput-holding}
use tarfs.Knl.Dir.{as_dir, names, find_step, load_entries, find_loop}

-- The number of the first entry with the name
pub find_name : (name : Bytes) (len : ℕ) → List Direct → Option ℕ
find_name name len [] = none
find_name name len (dp ∷ es) = if has_name name len dp then some dp.d_ino else find_name name len es

abbrev pub Positive : Direct → Type 0
Positive dp = 0 < dp.d_reclen

-- From its block `k` on, the directory has the blocks with the entries `bs`, each filled by them.
pub data DirBlocks (dev : Device) (ip : Dinode) : ℕ → List (List Direct) → Type 0 where
  no_block : {k : ℕ} → DirBlocks dev ip k []
  block :
      {k b : ℕ} {dp : Direct} {es : List Direct} {bs : List (List Direct)}
      → ((refs : ℕ) → tarfs_get_data_block dev ip k (lnx_io_init refs) ≡ ok b (lnx_io_init refs))
      → dev b ≡ some (dir_data (dp ∷ es))
      → record_len (dp ∷ es) ≡ tar_blocksize
      → All Positive (dp ∷ es)
      → DirBlocks dev ip (k + 1) bs
      → DirBlocks dev ip k ((dp ∷ es) ∷ bs)

abbrev pub join : List (List Direct) → List Direct
join [] = []
join (es ∷ bs) = es ++ join bs

module _ (dev : Device) (name : Bytes) (len : ℕ) (ip : Dinode) (refs : ℕ)
    (small : ip.di_size < 2 ^ 63) where
  -- Releasing its buffer leaves none of the caller's.
  abbrev pub Balanced : Io → Type 0
  Balanced io = lnx_bput io ≡ lnx_io_init refs

  pub load_entries-block :
      (off k b : ℕ) (es dep : List Direct) (io : Io)
      → Balanced io
      → off ≡ tar_blocksize * k
      → tarfs_get_data_block dev ip k (lnx_io_init refs) ≡ ok b (lnx_io_init refs)
      → dev b ≡ some (dir_data es)
      → load_entries dev ip off dep io ≡ ok es (holding (dir_data es) refs)
  unfolding load_entries as_dir
  load_entries-block off k b es dep io balanced start at stored =
      let here : (off % tar_blocksize == 0) ≡ true = ground arith in
      let index : off / tar_blocksize ≡ k = omega arith in
      rw (load_entries, here, balanced, index, at, lnx_bread-some dev b refs stored) refl

  pub load_entries-inside :
      (off : ℕ) (dep : List Direct) (io : Io)
      → off % tar_blocksize ≢ 0
      → load_entries dev ip off dep io ≡ ok dep io
  unfolding load_entries
  load_entries-inside off dep io h = rw (load_entries, ne→== (off % tar_blocksize) 0 h) refl

  find_step-cases :
      (off : ℕ) (dp : Direct) (es : List Direct) (tail : List Direct)
      (rest : ℕ → List Direct → K (Option ℕ)) (io : Io)
      → Balanced io
      → off + dp.d_reclen < 2 ^ 64
      → release (rest (off + dp.d_reclen) es io) ≡ ok (find_name name len tail) (lnx_io_init refs)
      → release (find_step name len off (dp ∷ es) rest io)
        ≡ ok (find_name name len (dp ∷ tail)) (lnx_io_init refs)
  unfolding find_step find_name release
  find_step-cases off dp es tail rest io balanced bound next =
      let sum : add64 off dp.d_reclen ≡ off + dp.d_reclen = omega arith in
      elim (Bool-cases (names name len dp)) [
        | inl h ↦
            let named = sym (names-has_name name len dp) ∙ h in
            rw (find_step, find_name, h, named, balanced) refl
        | inr h ↦
            let other = sym (names-has_name name len dp) ∙ h in
            rw (find_step, find_name, h, other, sum, next) refl
      ]

  pub lnx_bput-init : Balanced (lnx_io_init refs)
  unfolding lnx_bput
  lnx_bput-init = refl

  ended :
      (fuel off : ℕ) (dep : List Direct) (io : Io)
      → Balanced io
      → ltb off ip.di_size ≡ false
      → release (find_loop dev fuel name len ip off dep io) ≡ ok none (lnx_io_init refs)
  unfolding find_loop release
  ended zero off dep io balanced over = rw (find_loop, over, balanced) refl
  ended (suc fuel) off dep io balanced over = rw (find_loop, over, balanced) refl

  -- The loop at `off`, where the entries `es` are left of the block before block `k`.
  find_loop-at :
      (fuel off k : ℕ) (es : List Direct) (bs : List (List Direct)) (io : Io)
      → Balanced io
      → off + record_len es ≡ tar_blocksize * k
      → tar_blocksize * k < off + tar_blocksize
      → All Positive es
      → DirBlocks dev ip k bs
      → ip.di_size ≡ tar_blocksize * (k + length bs)
      → ip.di_size ≤ off + fuel
      → release (find_loop dev fuel name len ip off es io)
        ≡ ok (find_name name len (es ++ join bs)) (lnx_io_init refs)
  unfolding find_loop find_name release record_len
  find_loop-at fuel off k [] [] io balanced there near pos blocks whole enough =
      let over : ltb off ip.di_size ≡ false = ground arith in ended fuel off [] io balanced over
  find_loop-at zero off k [] (e ∷ bs) io balanced there near pos blocks whole enough =
      absurd (omega arith)
  find_loop-at zero off k (dp ∷ es) bs io balanced there near pos blocks whole enough =
      absurd (omega arith)
  find_loop-at (suc fuel) off k [] (e ∷ bs) io balanced there near pos
        (block {b} {dp} {es} at stored full positive blocks) whole enough =
      let more : ltb off ip.di_size ≡ true = ground arith in
      rw
        (
          find_loop,
          more,
          load_entries-block off k b (dp ∷ es) [] io balanced (omega arith) (at refs) stored,
        )
        (find_step-cases off dp es (es ++ join bs) (find_loop dev fuel name len ip)
          (holding (dir_data (dp ∷ es)) refs) (lnx_bput-holding (dir_data (dp ∷ es)) refs)
          (omega arith)
          (find_loop-at fuel (off + dp.d_reclen) (k + 1) es bs (holding (dir_data (dp ∷ es)) refs)
            (lnx_bput-holding (dir_data (dp ∷ es)) refs) (omega arith) (omega arith) positive.1
            blocks (omega arith) (omega arith)))
  find_loop-at (suc fuel) off k (dp ∷ es) bs io balanced there near pos blocks whole enough =
      let more : ltb off ip.di_size ≡ true = ground arith in
      rw (find_loop, more, load_entries-inside off (dp ∷ es) io (omega arith))
        (find_step-cases off dp es (es ++ join bs) (find_loop dev fuel name len ip) io balanced
          (omega arith)
          (find_loop-at fuel (off + dp.d_reclen) k es bs io balanced (omega arith) (omega arith)
            pos.1 blocks whole (omega arith)))

  -- Let the blocks of a directory be filled by their entries, and let each be found on the device.
  -- Then the loop of `__tarfs_lookup`, with a round for each byte of the directory, ends with the inode
  -- number of the first entry that has the name, or with none if no entry has it, and holds no more
  -- buffers than before. An entry has the name if it is in use, its `d_namelen` is the name's length, and its
  -- bytes are those of the name.
  pub find_loop-find_name :
      (bs : List (List Direct))
      → DirBlocks dev ip 0 bs
      → ip.di_size ≡ tar_blocksize * length bs
      → release (find_loop dev ip.di_size name len ip 0 [] (lnx_io_init refs))
        ≡ ok (find_name name len (join bs)) (lnx_io_init refs)
  unfolding record_len
  find_loop-find_name bs blocks whole =
      find_loop-at ip.di_size 0 0 [] bs (lnx_io_init refs) lnx_bput-init (omega arith) (omega arith)
        tt blocks (omega arith) (omega arith)

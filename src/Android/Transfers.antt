-- ===== src/Android/Transfers.antt =====
-- Which transfers the I/O of the Android version takes for errors, against the C++ version.
use tarfs.Base.{
  ℕ, ◌+◌, ◌-◌, ◌*◌, ◌≤◌, ◌<◌, ◌≡◌, refl, ap, true, false, inl, inr, Bool-cases, some, List, [], ◌∷◌,
  length, take, ltb, ◌==◌, arith, add64, zero, suc,
}
use tarfs.Meta.{tar_blocksize}
use tarfs.Manager.{Block}
use tarfs.Maker
use tarfs.Maker.{Maker, ok, rollback, grow_to, pwrite, pure, and_then}
use tarfs.Maker.Slots.{grown-world}
use tarfs.Android.{Calls, tarfs_io, is_off, read_block, write_block, writing, written, fitting}

abbrev pub moved_to : (off n errno : ℕ) → Calls
moved_to off n errno = record { moved = some off; done = some n; errno = errno }

-- Where lseek(2) goes to the offset and `errno` is 0, TARFS_IO reports no error, however few bytes are read or
-- written.
pub no_io_error : (off n : ℕ) → tarfs_io off (moved_to off n 0) ≡ 0
unfolding tarfs_io is_off
no_io_error off n =
    let here : (off == off) ≡ true = ground arith in
    elim (Bool-cases (n == off)) [
      | inl h ↦ rw (tarfs_io, is_off, here, h) refl
      | inr h ↦ rw (tarfs_io, is_off, here, h) refl
    ]

-- Reading a block of the file with `errno` at 0 ends as in the C++ version.
pub read_block_agrees :
    (blkno : ℕ) (s : Maker)
    → blkno < s.world.size
    → read_block 0 blkno s ≡ and_then (tarfs.Maker.read_block blkno s) λ b. pure (some b)
unfolding read_block tarfs.Maker.read_block
read_block_agrees blkno s inside =
    let here : ltb blkno s.world.size ≡ true = ground arith in
    let fits : ltb s.world.size (blkno + 1) ≡ false = ground arith in
    let clean = no_io_error (blkno * tar_blocksize) tar_blocksize in
    rw (read_block, tarfs.Maker.read_block, here, fits, clean) refl

take_long : {A : Type 0} (n : ℕ) (xs : List A) → length xs ≤ n → take n xs ≡ xs
take_long zero [] h = refl
take_long (suc n) [] h = refl
take_long zero (x ∷ xs) h = absurd (omega arith)
take_long (suc n) (x ∷ xs) h = ap (λ t. x ∷ t) (take_long n xs (omega arith))

-- The calls of a write with `errno` at 0 that has room for a block
no_write_error :
    (enospc : ℕ) (p : List Block) (blkno : ℕ) (s : Maker)
    → blkno < s.world.capacity
    → tarfs_io (blkno * tar_blocksize) (writing enospc 0 p blkno s) ≡ 0
no_write_error enospc p blkno s room =
    let some_room : ltb blkno s.world.capacity ≡ true = ground arith in
    rw some_room (no_io_error (blkno * tar_blocksize) (length (fitting p blkno s) * tar_blocksize))

whole_write :
    (p : List Block) (blkno : ℕ) (s : Maker)
    → blkno + length p ≤ s.world.capacity
    → ok tt (written (fitting p blkno s) blkno s) ≡ pwrite p blkno s
unfolding pwrite
whole_write p blkno s room =
    let fits : ltb s.world.capacity (blkno + length p) ≡ false = ground arith in
    let all = take_long (s.world.capacity - blkno) p (omega arith) in rw (pwrite, fits, all) refl

abbrev pub grown : List Block → ℕ → Maker → Maker
grown p blkno s = grow_to (add64 blkno (length p)) s

grown_capacity :
    (p : List Block) (blkno : ℕ) (s : Maker) → (grown p blkno s).world.capacity ≡ s.world.capacity
grown_capacity p blkno s = ap (λ w. w.capacity) (grown-world s (add64 blkno (length p)))

-- A write that the device has room for, with `errno` at 0, ends as in the C++ version.
pub write_block_agrees :
    (enospc : ℕ) (p : List Block) (blkno : ℕ) (s : Maker)
    → blkno < s.world.capacity
    → blkno + length p ≤ s.world.capacity
    → write_block enospc 0 p blkno s ≡ tarfs.Maker.write_block p blkno s
unfolding write_block tarfs.Maker.write_block
write_block_agrees enospc p blkno s some_room room =
    let same = grown_capacity p blkno s in
    let clean = no_write_error enospc p blkno (grown p blkno s) (omega (arith, same, some_room)) in
    rw (write_block, clean) (whole_write p blkno (grown p blkno s) (omega (arith, same, room)))

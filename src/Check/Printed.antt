-- ===== src/Check/Printed.antt =====
-- `tarfs_readdir` of checkTarfs prints the entries of a directory whose blocks are filled by them.
use tarfs.Base.{
  ℕ, zero, suc, ◌+◌, ◌*◌, ◌^◌, ◌≤◌, ◌<◌, ◌≡◌, refl, true, false, List, [], ◌∷◌, ◌++◌, arith, All,
  ltb, length, add64,
}
use tarfs.Meta.{Direct, Dinode, tar_blocksize}
use tarfs.Manager.{Manager, ok, M}
use tarfs.Directory.{Cursor}
use tarfs.Directory.Slots.{record_len}
use tarfs.Directory.Search.{Positive, DirBlocks, block, join, load_entry-block, load_entry-inside}
use tarfs.Check.{print_step, readdir_loop, tarfs_readdir}

module _ (m : Manager) (ip : Dinode) (small : ip.di_size < 2 ^ 63) where
  print_step-tail :
      (off : ℕ) (c : Cursor) (dp : Direct) (es tail : List Direct)
      (rest : ℕ → Cursor → M (List Direct))
      → off + dp.d_reclen < 2 ^ 64
      → rest (off + dp.d_reclen) (record c { dp = es }) m ≡ ok tail m
      → print_step off (record c { dp = dp ∷ es }) rest m ≡ ok (dp ∷ tail) m
  unfolding print_step
  print_step-tail off c dp es tail rest bound next =
      let sum : add64 off dp.d_reclen ≡ off + dp.d_reclen = omega arith in
      rw (print_step, sum, next) refl

  ended :
      (fuel off : ℕ) (c : Cursor)
      → ltb off ip.di_size ≡ false
      → readdir_loop fuel ip off c m ≡ ok [] m
  unfolding readdir_loop
  ended zero off c over = rw (readdir_loop, over) refl
  ended (suc fuel) off c over = rw (readdir_loop, over) refl

  -- The loop at `off`, where the entries `es` are left of the block before block `k`.
  readdir_loop-at :
      (fuel off k : ℕ) (es : List Direct) (bs : List (List Direct)) (c : Cursor)
      → off + record_len es ≡ tar_blocksize * k
      → tar_blocksize * k < off + tar_blocksize
      → All Positive es
      → DirBlocks m ip k bs
      → ip.di_size ≡ tar_blocksize * (k + length bs)
      → ip.di_size ≤ off + fuel
      → readdir_loop fuel ip off (record c { dp = es }) m ≡ ok (es ++ join bs) m
  unfolding readdir_loop record_len
  readdir_loop-at fuel off k [] [] c there near pos blocks whole enough =
      ended fuel off (record c { dp = [] }) (ground arith)
  readdir_loop-at zero off k [] (e ∷ bs) c there near pos blocks whole enough = absurd (omega arith)
  readdir_loop-at zero off k (dp ∷ es) bs c there near pos blocks whole enough =
      absurd (omega arith)
  readdir_loop-at (suc fuel) off k [] (e ∷ bs) c there near pos
        (block {b} {dp} {es} at inside stored full positive blocks) whole enough =
      let more : ltb off ip.di_size ≡ true = ground arith in
      let next : Cursor = record { dirblkno = b; dirbuf = dp ∷ es; dp = dp ∷ es } in
      rw
        (
          readdir_loop,
          more,
          load_entry-block m ip small off k b (dp ∷ es) (record c { dp = [] }) (omega arith) at
              inside stored,
        )
        (print_step-tail off next dp es (es ++ join bs) (readdir_loop fuel ip) (omega arith) (
          readdir_loop-at fuel (off + dp.d_reclen) (k + 1) es bs next (omega arith) (omega arith)
            positive.1 blocks (omega arith) (omega arith)))
  readdir_loop-at (suc fuel) off k (dp ∷ es) bs c there near pos blocks whole enough =
      let more : ltb off ip.di_size ≡ true = ground arith in
      rw
        (
          readdir_loop,
          more,
          load_entry-inside m ip small off (record c { dp = dp ∷ es }) (omega arith),
        )
        (print_step-tail off c dp es (es ++ join bs) (readdir_loop fuel ip) (omega arith) (
          readdir_loop-at fuel (off + dp.d_reclen) k es bs c (omega arith) (omega arith) pos.1
            blocks whole (omega arith)))

-- Let the blocks of a directory be in the file and be filled by their entries, each of at least a byte. Then
-- tarfs_readdir of checkTarfs, with a round for each byte of the directory, returns: it prints all entries in
-- order, the unused ones too, and changes nothing.
pub tarfs_readdir-join :
    (m : Manager) (ip : Dinode) (bs : List (List Direct))
    → ip.di_size < 2 ^ 63
    → DirBlocks m ip 0 bs
    → ip.di_size ≡ tar_blocksize * length bs
    → tarfs_readdir ip m ≡ ok (join bs) m
unfolding tarfs_readdir record_len
tarfs_readdir-join m ip bs small blocks whole =
    readdir_loop-at m ip small ip.di_size 0 0 [] bs (record { dirblkno = 0; dirbuf = []; dp = [] })
      (omega arith) (omega arith) tt blocks (omega arith) (omega arith)

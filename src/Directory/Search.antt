-- ===== src/Directory/Search.antt =====
-- `tarfs_lookup` of mkfs over a directory whose blocks are filled by their entries.
use tarfs.Base.{
  ℕ, zero, suc, ◌+◌, ◌*◌, ◌/◌, ◌%◌, ◌^◌, ◌≤◌, ◌<◌, ◌≡◌, ◌≢◌, refl, sym, ◌∙◌, true, false, inl, inr,
  Bool-cases, Option, none, some, List, [], ◌∷◌, ◌++◌, arith, All, ltb, ◌==◌, ne→==, length, add64,
  if◌then◌else◌,
}
use tarfs.Meta.{Direct, Dinode, tar_blocksize}
use tarfs.Manager.{dir_data, Manager, Run, ok, M, read_data, as_dir}
use tarfs.Extent.{get_data_block}
use tarfs.Directory.{
  Cursor, Slot, LookupOp, Looked, found, absent, matches, note_slot, load_entry, lookup_step,
  lookup_loop, tarfs_lookup,
}
use tarfs.Directory.Slots.{record_len}
use tarfs.Directory.Names.{has_cname, matches-has_cname}

abbrev pub Positive : Direct → Type 0
Positive dp = 0 < dp.d_reclen

-- From its block `k` on, the directory has the blocks with the entries `bs`, each filled by them.
pub data DirBlocks (m : Manager) (ip : Dinode) : ℕ → List (List Direct) → Type 0 where
  no_block : {k : ℕ} → DirBlocks m ip k []
  block :
      {k b : ℕ} {dp : Direct} {es : List Direct} {bs : List (List Direct)}
      → get_data_block ip k m ≡ ok b m
      → b < m.world.size
      → m.world.blocks b ≡ dir_data (dp ∷ es)
      → record_len (dp ∷ es) ≡ tar_blocksize
      → All Positive (dp ∷ es)
      → DirBlocks m ip (k + 1) bs
      → DirBlocks m ip k ((dp ∷ es) ∷ bs)

abbrev pub join : List (List Direct) → List Direct
join [] = []
join (es ∷ bs) = es ++ join bs

-- The inode number of the first entry that has the name
unfoldable pub first_named : LookupOp → List Direct → Option ℕ
first_named op [] = none
first_named op (dp ∷ es) = if has_cname op dp then some dp.d_ino else first_named op es

-- The search returns, with this inode number or, for `none`, with ENOENT, and has changed nothing.
pub data Looks (m : Manager) : Option ℕ → Run Looked → Type 0 where
  finds : {ino : ℕ} → Looks m (some ino) (ok (found ino) m)
  misses : {slot : Option Slot} → Looks m none (ok (absent slot) m)

module _ (m : Manager) (ip : Dinode) (small : ip.di_size < 2 ^ 63) where
  pub load_entry-block :
      (off k b : ℕ) (es : List Direct) (c : Cursor)
      → off ≡ tar_blocksize * k
      → get_data_block ip k m ≡ ok b m
      → b < m.world.size
      → m.world.blocks b ≡ dir_data es
      → load_entry ip off c m ≡ ok (record { dirblkno = b; dirbuf = es; dp = es }) m
  unfolding load_entry read_data as_dir
  load_entry-block off k b es c start at inside stored =
      let here : (off % tar_blocksize == 0) ≡ true = ground arith in
      let index : off / tar_blocksize ≡ k = omega arith in
      let fits : ltb m.world.size (b + 1) ≡ false = ground arith in
      rw (load_entry, here, index, at, read_data, fits, stored) refl

  pub load_entry-inside :
      (off : ℕ) (c : Cursor) → off % tar_blocksize ≢ 0 → load_entry ip off c m ≡ ok c m
  unfolding load_entry
  load_entry-inside off c h = rw (load_entry, ne→== (off % tar_blocksize) 0 h) refl

  lookup_step-Looks :
      (op : LookupOp) (off : ℕ) (c : Cursor) (dp : Direct) (es tail : List Direct)
      (slot : Option Slot) (rest : ℕ → Cursor → Option Slot → M Looked)
      → off + dp.d_reclen < 2 ^ 64
      → ((slot' : Option Slot)
          → Looks m (first_named op tail) (rest (off + dp.d_reclen) (record c { dp = es }) slot' m))
      → Looks m
          (first_named op (dp ∷ tail))
          (lookup_step op off (record c { dp = dp ∷ es }) slot rest m)
  unfolding lookup_step first_named
  lookup_step-Looks op off c dp es tail slot rest bound next =
      let sum : add64 off dp.d_reclen ≡ off + dp.d_reclen = omega arith in
      elim (Bool-cases (matches op dp)) [
        | inl h ↦
            let named = sym (matches-has_cname op dp) ∙ h in
            rw (lookup_step, first_named, h, named) finds
        | inr h ↦
            let other = sym (matches-has_cname op dp) ∙ h in
            rw (lookup_step, first_named, h, other, sum)
              (next (note_slot op off c.dirblkno c.dirbuf dp slot))
      ]

  ended :
      (fuel off : ℕ) (op : LookupOp) (c : Cursor) (slot : Option Slot)
      → ltb off ip.di_size ≡ false
      → Looks m none (lookup_loop fuel op ip off c slot m)
  unfolding lookup_loop
  ended zero off op c slot over = rw (lookup_loop, over) misses
  ended (suc fuel) off op c slot over = rw (lookup_loop, over) misses

  -- The loop at `off`, where the entries `es` are left of the block before block `k`.
  lookup_loop-at :
      (op : LookupOp) (fuel off k : ℕ) (es : List Direct) (bs : List (List Direct)) (c : Cursor)
      (slot : Option Slot)
      → off + record_len es ≡ tar_blocksize * k
      → tar_blocksize * k < off + tar_blocksize
      → All Positive es
      → DirBlocks m ip k bs
      → ip.di_size ≡ tar_blocksize * (k + length bs)
      → ip.di_size ≤ off + fuel
      → Looks m
          (first_named op (es ++ join bs))
          (lookup_loop fuel op ip off (record c { dp = es }) slot m)
  unfolding lookup_loop first_named record_len
  lookup_loop-at op fuel off k [] [] c slot there near pos blocks whole enough =
      ended fuel off op (record c { dp = [] }) slot (ground arith)
  lookup_loop-at op zero off k [] (e ∷ bs) c slot there near pos blocks whole enough =
      absurd (omega arith)
  lookup_loop-at op zero off k (dp ∷ es) bs c slot there near pos blocks whole enough =
      absurd (omega arith)
  lookup_loop-at op (suc fuel) off k [] (e ∷ bs) c slot there near pos
        (block {b} {dp} {es} at inside stored full positive blocks) whole enough =
      let more : ltb off ip.di_size ≡ true = ground arith in
      let next : Cursor = record { dirblkno = b; dirbuf = dp ∷ es; dp = dp ∷ es } in
      rw
        (
          lookup_loop,
          more,
          load_entry-block off k b (dp ∷ es) (record c { dp = [] }) (omega arith) at inside stored,
        )
        (lookup_step-Looks op off next dp es (es ++ join bs) slot (lookup_loop fuel op ip)
          (omega arith)
          λ slot'.
            lookup_loop-at op fuel (off + dp.d_reclen) (k + 1) es bs next slot' (omega arith)
              (omega arith) positive.1 blocks (omega arith) (omega arith))
  lookup_loop-at op (suc fuel) off k (dp ∷ es) bs c slot there near pos blocks whole enough =
      let more : ltb off ip.di_size ≡ true = ground arith in
      rw (lookup_loop, more, load_entry-inside off (record c { dp = dp ∷ es }) (omega arith))
        (lookup_step-Looks op off c dp es (es ++ join bs) slot (lookup_loop fuel op ip)
          (omega arith)
          λ slot'.
            lookup_loop-at op fuel (off + dp.d_reclen) k es bs c slot' (omega arith) (omega arith)
              pos.1 blocks whole (omega arith))

-- Let the blocks of a directory be in the file and be filled by their entries, each of at least a byte. Then
-- tarfs_lookup of mkfs, with a round for each byte of the directory, returns: with the inode number of the
-- first entry that has the name, or with ENOENT if no entry has it; and it changes nothing. An entry has the
-- name if it is in use, its `d_namelen` is the name's length, and its bytes, up to a zero, are those of the
-- name.
pub tarfs_lookup-Looks :
    (m : Manager) (ip : Dinode) (op : LookupOp) (bs : List (List Direct))
    → ip.di_size < 2 ^ 63
    → DirBlocks m ip 0 bs
    → ip.di_size ≡ tar_blocksize * length bs
    → Looks m (first_named op (join bs)) (tarfs_lookup ip op m)
unfolding tarfs_lookup record_len
tarfs_lookup-Looks m ip op bs small blocks whole =
    lookup_loop-at m ip small op ip.di_size 0 0 [] bs
      (record { dirblkno = 0; dirbuf = []; dp = [] }) none (omega arith) (omega arith) tt blocks
      (omega arith) (omega arith)

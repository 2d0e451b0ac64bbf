-- ===== src/Knl/Listing.antt =====
-- `tarfs_iterate` offers the entries of the directory from the position on.
use tarfs.Base.{
  ℕ, zero, suc, ◌+◌, ◌-◌, ◌*◌, ◌%◌, ◌^◌, ◌≤◌, ◌<◌, ◌≡◌, refl, ap, ◌∙◌, true, false, Option, none,
  some, List, [], ◌∷◌, ◌++◌, arith, All, All-append, All-split, subst, sym, leb, ltb, ◌==◌,
  if◌then◌else◌, inl, inr, Bool-cases, length, add64,
}
use tarfs.Meta.{Direct, Dinode, tar_blocksize, tarblk_none}
use tarfs.Manager.{dir_data}
use tarfs.Directory.Slots.{record_len, record_len-append}
use tarfs.Knl.{Device, Io, ok, K, lnx_io_init, lnx_bput, release, tarfs_get_data_block}
use tarfs.Knl.Blocks.{holding, lnx_bput-holding}
use tarfs.Knl.Search.{
  Positive, DirBlocks, no_block, block, join, load_entries-block, load_entries-inside,
  lnx_bput-init,
}
use tarfs.Knl.Dir.{
  FileTypes, get_dtype, Emit, Reader, offer, advance, load_entries, read_step, read_loop,
  tarfs_iterate,
}

data Offered {A : Type 0} (x : Option A) : Type 0 where
  refused : x ≡ none → Offered x
  taken : (a : A) → x ≡ some a → Offered x

offered : {A : Type 0} (x : Option A) → Offered x
offered none = refused refl
offered (some a) = taken a refl

module _ {C : Type 0} (dev : Device) (dt : FileTypes) (emit : Emit C) where
  abbrev R : Type 0
  R = Reader dev dt emit

  -- The entries from byte `off` on are offered in order, up to the first that is refused.
  offering : ℕ → List Direct → R → R
  offering off [] r = r
  offering off (dp ∷ es) r = elim (offer dev dt emit off dp r) [
    | none ↦ r
    | some r' ↦ offering (off + dp.d_reclen) es (advance dev dt emit off dp r')
  ]

  advance-behind :
      (off : ℕ) (dp : Direct) (r : R) → leb r.pos off ≡ false → advance dev dt emit off dp r ≡ r
  unfolding advance
  advance-behind off dp r h = rw (advance, h) refl

  offer-behind :
      (off : ℕ) (dp : Direct) (r : R) → leb r.pos off ≡ false → offer dev dt emit off dp r ≡ some r
  unfolding offer
  offer-behind off dp r h = rw (offer, h) refl

  -- The entries behind the position are passed over.
  offering-skip :
      (off : ℕ) (before es : List Direct) (r : R)
      → All Positive before
      → off + record_len before ≤ r.pos
      → offering off (before ++ es) r ≡ offering (off + record_len before) es r
  unfolding offering record_len
  offering-skip off [] es r pos h = ap (λ t. offering t es r) (omega arith)
  offering-skip off (dp ∷ before) es r pos h =
      let passed : leb r.pos off ≡ false = ground arith in
      let sum : off + (dp.d_reclen + record_len before) ≡ off + dp.d_reclen + record_len before =
        omega arith in
      rw (offering, offer-behind off dp r passed, advance-behind off dp r passed, sum)
        (offering-skip (off + dp.d_reclen) before es r pos.1 (omega arith))

  -- What reading the entries makes of a position at the first of them: each that is in use is given to the
  -- callback with its type, in order, up to the first that the callback refuses; the position goes on by the
  -- `d_reclen` of each entry that is passed.
  pub listing : List Direct → R → R
  listing [] r = r
  listing (dp ∷ es) r =
      let unused = listing es (record { pos = r.pos + dp.d_reclen; ctx = r.ctx }) in
      if dp.d_ino == tarblk_none
      then unused
      else elim (emit r.ctx dp (get_dtype dt dp.d_ftype)) as (λ x. R) [
        | none ↦ r
        | some c ↦ listing es (record { pos = r.pos + dp.d_reclen; ctx = c })
      ]

  abbrev past : Direct → C → R → R
  past dp c r = record { pos = r.pos + dp.d_reclen; ctx = c }

  advance-here :
      (dp : Direct) (pos : ℕ) (c : C)
      → pos + dp.d_reclen < 2 ^ 64
      → advance dev dt emit pos dp (record { pos = pos; ctx = c })
        ≡ record { pos = pos + dp.d_reclen; ctx = c }
  unfolding advance
  advance-here dp pos c bound =
      let here : leb pos pos ≡ true = ground arith in
      let sum : add64 pos dp.d_reclen ≡ pos + dp.d_reclen = omega arith in
      rw (advance, here, sum) refl

  offer-unused :
      (dp : Direct) (r : R)
      → (dp.d_ino == tarblk_none) ≡ true
      → offer dev dt emit r.pos dp r ≡ some r
  unfolding offer
  offer-unused dp r h = let here : leb r.pos r.pos ≡ true = ground arith in rw (offer, here, h) refl

  offer-used :
      (dp : Direct) (r : R)
      → (dp.d_ino == tarblk_none) ≡ false
      → offer dev dt emit r.pos dp r
        ≡ elim (emit r.ctx dp (get_dtype dt dp.d_ftype)) as (λ x. Option R) [
          | none ↦ none
          | some c ↦ some (record r { ctx = c })
        ]
  unfolding offer
  offer-used dp r h = let here : leb r.pos r.pos ≡ true = ground arith in rw (offer, here, h) refl

  offering-listing :
      (es : List Direct) (r : R)
      → r.pos + record_len es < 2 ^ 64
      → offering r.pos es r ≡ listing es r
  unfolding offering listing record_len
  offering-listing [] r bound = refl
  offering-listing (dp ∷ es) r bound = elim (Bool-cases (dp.d_ino == tarblk_none)) [
    | inl h ↦
        rw (offering, listing, offer-unused dp r h, h, advance-here dp r.pos r.ctx (omega arith))
          (offering-listing es (past dp r.ctx r) (omega arith))
    | inr h ↦ elim (offered (emit r.ctx dp (get_dtype dt dp.d_ftype))) [
      | refused e ↦ rw (offering, listing, offer-used dp r h, h, e) refl
      | taken c e ↦
          rw (offering, listing, offer-used dp r h, h, e, advance-here dp r.pos c (omega arith))
            (offering-listing es (past dp c r) (omega arith))
    ]
  ]

  record_len-join :
      (ip : Dinode) {k : ℕ} {bs : List (List Direct)}
      → DirBlocks dev ip k bs
      → record_len (join bs) ≡ tar_blocksize * length bs
  unfolding record_len
  record_len-join ip no_block = refl
  record_len-join ip (block {dp} {es} {bs} at stored full positive blocks) =
      omega (arith, full, record_len-append (dp ∷ es) (join bs), record_len-join ip blocks)

  DirBlocks-Positive :
      (ip : Dinode) {k : ℕ} {bs : List (List Direct)}
      → DirBlocks dev ip k bs
      → All Positive (join bs)
  DirBlocks-Positive ip no_block = tt
  DirBlocks-Positive ip (block {dp} {es} {bs} at stored full positive blocks) =
      All-append Positive (dp ∷ es) (join bs) positive (DirBlocks-Positive ip blocks)

  module _ (ip : Dinode) (refs : ℕ) (small : ip.di_size < 2 ^ 63) where
    read_step-offering :
        (off : ℕ) (dp : Direct) (es tail : List Direct) (r : R) (rest : ℕ → List Direct → R → K R)
        (io : Io)
        → lnx_bput io ≡ lnx_io_init refs
        → off + dp.d_reclen < 2 ^ 64
        → ((r' : R)
            → release (rest (off + dp.d_reclen) es r' io)
              ≡ ok (offering (off + dp.d_reclen) tail r') (lnx_io_init refs))
        → release (read_step dev dt emit off (dp ∷ es) r rest io)
          ≡ ok (offering off (dp ∷ tail) r) (lnx_io_init refs)
    unfolding read_step offering release
    read_step-offering off dp es tail r rest io balanced bound next =
        let sum : add64 off dp.d_reclen ≡ off + dp.d_reclen = omega arith in
        elim (offered (offer dev dt emit off dp r)) [
          | refused e ↦ rw (read_step, offering, e, balanced) refl
          | taken r' e ↦ rw (read_step, offering, e, sum) (next (advance dev dt emit off dp r'))
        ]

    load_entries-dir :
        (off k b : ℕ) (es dep : List Direct) (io : Io)
        → lnx_bput io ≡ lnx_io_init refs
        → off ≡ tar_blocksize * k
        → tarfs_get_data_block dev ip k (lnx_io_init refs) ≡ ok b (lnx_io_init refs)
        → dev b ≡ some (dir_data es)
        → load_entries dev ip off dep io ≡ ok es (holding (dir_data es) refs)
    load_entries-dir = load_entries-block dev [] 0 ip refs small

    ended :
        (fuel off : ℕ) (dep : List Direct) (r : R) (io : Io)
        → lnx_bput io ≡ lnx_io_init refs
        → ltb off ip.di_size ≡ false
        → release (read_loop dev dt emit fuel ip off dep r io) ≡ ok r (lnx_io_init refs)
    unfolding read_loop release
    ended zero off dep r io balanced over = rw (read_loop, over, balanced) refl
    ended (suc fuel) off dep r io balanced over = rw (read_loop, over, balanced) refl

    -- The loop at `off`, where the entries `es` are left of the block before block `k`.
    read_loop-at :
        (fuel off k : ℕ) (es : List Direct) (bs : List (List Direct)) (r : R) (io : Io)
        → lnx_bput io ≡ lnx_io_init refs
        → off + record_len es ≡ tar_blocksize * k
        → tar_blocksize * k < off + tar_blocksize
        → All Positive es
        → DirBlocks dev ip k bs
        → ip.di_size ≡ tar_blocksize * (k + length bs)
        → ip.di_size ≤ off + fuel
        → release (read_loop dev dt emit fuel ip off es r io)
          ≡ ok (offering off (es ++ join bs) r) (lnx_io_init refs)
    unfolding read_loop offering release record_len
    read_loop-at fuel off k [] [] r io balanced there near pos blocks whole enough =
        ended fuel off [] r io balanced (ground arith)
    read_loop-at zero off k [] (e ∷ bs) r io balanced there near pos blocks whole enough =
        absurd (omega arith)
    read_loop-at zero off k (dp ∷ es) bs r io balanced there near pos blocks whole enough =
        absurd (omega arith)
    read_loop-at (suc fuel) off k [] (e ∷ bs) r io balanced there near pos
          (block {b} {dp} {es} at stored full positive blocks) whole enough =
        let more : ltb off ip.di_size ≡ true = ground arith in
        rw
          (
            read_loop,
            more,
            load_entries-dir off k b (dp ∷ es) [] io balanced (omega arith) (at refs) stored,
          )
          (read_step-offering off dp es (es ++ join bs) r (read_loop dev dt emit fuel ip)
            (holding (dir_data (dp ∷ es)) refs) (lnx_bput-holding (dir_data (dp ∷ es)) refs)
            (omega arith)
            λ r'.
              read_loop-at fuel (off + dp.d_reclen) (k + 1) es bs r'
                (holding (dir_data (dp ∷ es)) refs) (lnx_bput-holding (dir_data (dp ∷ es)) refs)
                (omega arith) (omega arith) positive.1 blocks (omega arith) (omega arith))
    read_loop-at (suc fuel) off k (dp ∷ es) bs r io balanced there near pos blocks whole enough =
        let more : ltb off ip.di_size ≡ true = ground arith in
        rw
          (
            read_loop,
            more,
            load_entries-inside dev [] 0 ip refs small off (dp ∷ es) io (omega arith),
          )
          (read_step-offering off dp es (es ++ join bs) r (read_loop dev dt emit fuel ip) io
            balanced (omega arith)
            λ r'.
              read_loop-at fuel (off + dp.d_reclen) k es bs r' io balanced (omega arith)
                (omega arith) pos.1 blocks whole (omega arith))

    -- Let the blocks of a directory from that of the position on be filled by their entries and be found
    -- on the device, and let the position be at an entry: behind the entries `before` of these blocks.
    -- Then `tarfs_iterate` returns, and holds no more buffers than before. The callback has been given each
    -- entry from the position on that is in use, in order, up to the first that it refuses, and the position
    -- has gone on by the `d_reclen` of each entry that was passed.
    pub tarfs_iterate-listing :
        (k : ℕ) (bs : List (List Direct)) (before es : List Direct) (r : R)
        → DirBlocks dev ip k bs
        → ip.di_size ≡ tar_blocksize * (k + length bs)
        → join bs ≡ before ++ es
        → r.pos ≡ tar_blocksize * k + record_len before
        → record_len before < tar_blocksize
        → tarfs_iterate dev dt emit ip r refs ≡ ok (listing es r) (lnx_io_init refs)
    unfolding tarfs_iterate record_len
    tarfs_iterate-listing k bs before es r blocks whole split at inside =
        let start : r.pos - r.pos % tar_blocksize ≡ tar_blocksize * k = omega arith in
        let (positive, _) =
          All-split Positive before es
            (subst (All Positive) split (DirBlocks-Positive ip blocks)) in
        rw (tarfs_iterate, start)
          (read_loop-at ip.di_size (tar_blocksize * k) k [] bs r (lnx_io_init refs)
              (lnx_bput-init dev [] 0 ip refs small) (omega arith) (omega arith) tt blocks whole
              (omega arith)
            ∙ ap (λ t. ok t (lnx_io_init refs))
                (ap (λ t. offering (tar_blocksize * k) t r) split
                  ∙ offering-skip (tar_blocksize * k) before es r positive (omega arith)
                  ∙ ap (λ t. offering t es r) (sym at)
                  ∙ offering-listing es r (
                      omega (
                        arith,
                        record_len-join ip blocks,
                        ap record_len split,
                        record_len-append before es,
                      ))))

-- ===== src/Knl/Dir.antt =====
-- knl/dir.c and knl/namei.c: reading a directory, and the lookup of a name in it.
use tarfs.Base.{
  ℕ, zero, suc, ◌-◌, ◌/◌, ◌%◌, Bool, true, false, Option, none, some, List, [], ◌∷◌, ltb, leb, ◌==◌,
  ◌&&◌, not, if◌then◌else◌, add64,
}
use tarfs.Meta.{
  Bytes, tar_blocksize, Direct, Dinode, tarblk_none, tarfs_ifreg, tarfs_ifdir, tarfs_iflnk,
}
use tarfs.Manager.{Block, dir_data}
use tarfs.Knl.{
  Device, Run, ok, fault, out_of_fuel, K, pure, ◌>>=◌, lnx_io_init, lnx_bread, lnx_bput, release,
  tarfs_get_data_block,
}

-- DT_UNKNOWN, DT_DIR, DT_REG and DT_LNK of the kernel
pub record FileTypes : Type 0 where
  pub dt_unknown : ℕ
  pub dt_dir : ℕ
  pub dt_reg : ℕ
  pub dt_lnk : ℕ

-- getDtype
unfoldable pub get_dtype : FileTypes → ℕ → ℕ
get_dtype dt type =
    if type == tarfs_ifreg
    then dt.dt_reg
    else if type == tarfs_ifdir
    then dt.dt_dir
    else if type == tarfs_iflnk
    then dt.dt_lnk
    else dt.dt_unknown

unfoldable pub as_dir : Block → K (List Direct)
as_dir (dir_data es) io = ok es io
as_dir _ io = fault

-- The block of the directory at `off` replaces the buffer that is held; elsewhere `dep` goes on.
unfoldable pub load_entries : Device → Dinode → ℕ → List Direct → K (List Direct)
unfolding as_dir
load_entries dev parentp off dep =
    if off % tar_blocksize == 0
    then (λ io.
        (do
          blkno ← tarfs_get_data_block dev parentp (off / tar_blocksize)
          buf ← lnx_bread dev blkno
          as_dir buf)
          (lnx_bput io))
    else pure dep

-- A callback of the VFS, `filldir` or `dir_emit`: `none` where it refuses the entry.
abbrev pub Emit : Type 0 → Type 0
Emit C = C → Direct → (type : ℕ) → Option C

module _ {C : Type 0} (dev : Device) (dt : FileTypes) (emit : Emit C) where
  -- `f_pos` or `ctx->pos`, and what the callback keeps
  pub record Reader : Type 0 where
    pub pos : ℕ
    pub ctx : C

  -- The entry is offered if it is not behind `pos` and is in use. `none` where it is refused.
  unfoldable pub offer : ℕ → Direct → Reader → Option Reader
  offer off dp r =
      if leb r.pos off && not (dp.d_ino == tarblk_none)
      then elim (emit r.ctx dp (get_dtype dt dp.d_ftype)) [
        | none ↦ none
        | some ctx ↦ some (record r { ctx = ctx })
      ]
      else some r

  -- if (off >= pos) pos += d_reclen
  unfoldable pub advance : ℕ → Direct → Reader → Reader
  advance off dp r = if leb r.pos off then record r { pos = add64 r.pos dp.d_reclen } else r

  -- The body of the loop at the entries from `dep` on, with the rest of the loop. A refusal ends it.
  unfoldable pub read_step :
      ℕ → List Direct → Reader → (ℕ → List Direct → Reader → K Reader) → K Reader
  read_step off [] r rest = λ io. fault
  read_step off (dp ∷ es) r rest = elim (offer off dp r) [
    | none ↦ pure r
    | some r' ↦ rest (add64 off dp.d_reclen) es (advance off dp r')
  ]

  -- `while (off < endoff)`, with a round of fuel for each byte of the directory
  unfoldable pub read_loop : ℕ → Dinode → ℕ → List Direct → Reader → K Reader
  unfolding load_entries read_step
  read_loop zero parentp off dep r = if ltb off parentp.di_size then (λ io. out_of_fuel) else pure r
  read_loop (suc k) parentp off dep r =
      let rest = read_loop k parentp in
      if ltb off parentp.di_size
      then (do es ← load_entries dev parentp off dep; read_step off es r rest)
      else pure r

  -- tarfs_iterate of the kernels from 3.11 on
  unfoldable pub tarfs_iterate : Dinode → Reader → (refs : ℕ) → Run Reader
  tarfs_iterate parentp r refs =
      release
        (read_loop parentp.di_size parentp (r.pos - r.pos % tar_blocksize) [] r (lnx_io_init refs))

-- !memcmp(a, b, n)
unfoldable pub memcmp_eq : ℕ → Bytes → Bytes → Bool
memcmp_eq zero a b = true
memcmp_eq (suc n) [] b = false
memcmp_eq (suc n) (c ∷ a) [] = false
memcmp_eq (suc n) (c ∷ a) (d ∷ b) = c == d && memcmp_eq n a b

unfoldable pub names : (name : Bytes) (len : ℕ) → Direct → Bool
unfolding memcmp_eq
names name len dep =
    not (dep.d_ino == tarblk_none) && len == dep.d_namelen && memcmp_eq len name dep.d_name

unfoldable pub find_step :
    (name : Bytes) (len off : ℕ) → List Direct → (ℕ → List Direct → K (Option ℕ)) → K (Option ℕ)
unfolding names
find_step name len off [] rest = λ io. fault
find_step name len off (dp ∷ es) rest =
    if names name len dp then pure (some dp.d_ino) else rest (add64 off dp.d_reclen) es

unfoldable pub find_loop :
    Device → ℕ → (name : Bytes) (len : ℕ) → Dinode → ℕ → List Direct → K (Option ℕ)
unfolding load_entries find_step
find_loop dev zero name len parentp off dep =
    if ltb off parentp.di_size then (λ io. out_of_fuel) else pure none
find_loop dev (suc k) name len parentp off dep =
    let rest = find_loop dev k name len parentp in
    if ltb off parentp.di_size
    then (do es ← load_entries dev parentp off dep; find_step name len off es rest)
    else pure none

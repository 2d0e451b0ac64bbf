-- ===== src/Knl/Readdir.antt =====
-- `tarfs_readdir` of knl/dir.c, for kernels before 3.11. Its callback gets the position too, and returns an
-- error number, which tarfs_readdir returns in turn.
use tarfs.Base.{
  ℕ, zero, suc, ◌-◌, ◌%◌, ◌≡◌, refl, ap, ◌∙◌, inl, inr, Bool-cases, Option, none, some, List, [],
  ◌∷◌, ltb, leb, ◌==◌, ◌&&◌, not, if◌then◌else◌, add64,
}
use tarfs.Meta.{tar_blocksize, Direct, Dinode, tarblk_none}
use tarfs.Knl.{
  Device, Io, Run, ok, fail, fault, out_of_fuel, K, and_then, pure, ◌>>=◌, lnx_io_init, release,
}
use tarfs.Knl.Dir.{
  FileTypes, get_dtype, Emit, Reader, offer, advance, load_entries, read_step, read_loop,
  tarfs_iterate,
}

-- filldir_t: what the callback keeps, and its error if it is not 0
abbrev pub Filldir : Type 0 → Type 0 → Type 0
Filldir C E = C → Direct → (pos type : ℕ) → C × Option E

module _ {C E : Type 0} (dev : Device) (dt : FileTypes) (filldir : Filldir C E) where
  -- `f_pos`, and what the callback keeps
  pub record Position : Type 0 where
    pub f_pos : ℕ
    pub dirent : C

  -- The call of `filldir` at an entry that is not behind `f_pos` and is in use
  unfoldable pub fill : ℕ → Direct → Position → Position × Option E
  fill off dep p =
      if leb p.f_pos off && not (dep.d_ino == tarblk_none)
      then (let (dirent, err) = filldir p.dirent dep p.f_pos (get_dtype dt dep.d_ftype) in
          (record p { dirent = dirent }, err))
      else (p, none)

  -- if (off >= filp->f_pos) filp->f_pos += dep->d_reclen
  unfoldable pub go_on : ℕ → Direct → Position → Position
  go_on off dep p = if leb p.f_pos off then record p { f_pos = add64 p.f_pos dep.d_reclen } else p

  abbrev pub unless_error :
      Position × Option E → (Position → K (Position × Option E)) → K (Position × Option E)
  unless_error (p, some e) rest = pure (p, some e)
  unless_error (p, none) rest = rest p

  -- The body of the loop at the entries from `dep` on, with the rest of the loop. An error ends it.
  unfoldable pub readdir_step :
      ℕ
      → List Direct
      → Position
      → (ℕ → List Direct → Position → K (Position × Option E))
      → K (Position × Option E)
  readdir_step off [] p rest = λ io. fault
  readdir_step off (dep ∷ es) p rest =
      unless_error (fill off dep p) λ p'. rest (add64 off dep.d_reclen) es (go_on off dep p')

  -- `while (off < endoff)`, with a round of fuel for each byte of the directory
  unfoldable pub readdir_loop : ℕ → Dinode → ℕ → List Direct → Position → K (Position × Option E)
  unfolding readdir_step
  readdir_loop zero parentp off dep p =
      if ltb off parentp.di_size then (λ io. out_of_fuel) else pure (p, none)
  readdir_loop (suc k) parentp off dep p =
      let rest = readdir_loop k parentp in
      if ltb off parentp.di_size
      then (do es ← load_entries dev parentp off dep; readdir_step off es p rest)
      else pure (p, none)

  -- tarfs_readdir: the position, and the callback's error
  unfoldable pub tarfs_readdir : Dinode → Position → (refs : ℕ) → Run (Position × Option E)
  tarfs_readdir parentp p refs = release (
      readdir_loop parentp.di_size parentp (p.f_pos - p.f_pos % tar_blocksize) [] p
        (lnx_io_init refs))

-- What the callback keeps and returns when an entry is taken, and when it is refused
abbrev pub answer {ℓ} : {C : Type 0} {E : Type ℓ} → E → C → Option C → C × Option E
answer e c none = (c, some e)
answer e c (some c') = (c', none)

-- A callback that takes an entry or refuses it with the error `e`, whatever its position
abbrev pub filldir_of {ℓ} :
    {C : Type 0} {E : Type ℓ} → E → Emit C → C → Direct → (pos type : ℕ) → C × Option E
filldir_of e emit c dep pos type = elim (emit c dep type) [
  | none ↦ (c, some e)
  | some c' ↦ (c', none)
]

-- What tarfs_readdir returns, as tarfs_iterate does: without the error
module _ {C E : Type 0} (dev : Device) (dt : FileTypes) (emit : Emit C) (e : E) where
  abbrev pub F : Filldir C E
  F = filldir_of e emit

  abbrev pub reader : Position dev dt F → Reader dev dt emit
  reader p = record { pos = p.f_pos; ctx = p.dirent }

  abbrev pub forget : Run (Position dev dt F × Option E) → Run (Reader dev dt emit)
  forget (ok a io) = ok (reader a.0) io
  forget (fail x io) = fail x io
  forget fault = fault
  forget out_of_fuel = out_of_fuel

  data Asked (x : Option C) : Type 0 where
    refused : x ≡ none → Asked x
    taken : (c : C) → x ≡ some c → Asked x

  asked : (x : Option C) → Asked x
  asked none = refused refl
  asked (some c) = taken c refl

  go_on-advance :
      (off : ℕ) (dep : Direct) (p : Position dev dt F)
      → reader (go_on dev dt F off dep p) ≡ advance dev dt emit off dep (reader p)
  unfolding go_on advance
  go_on-advance off dep p = elim (Bool-cases (leb p.f_pos off)) [
    | inl h ↦ rw h refl
    | inr h ↦ rw h refl
  ]

  abbrev Forgets :
      (ℕ → List Direct → Position dev dt F → K (Position dev dt F × Option E))
      → (ℕ → List Direct → Reader dev dt emit → K (Reader dev dt emit))
      → Type 0
  Forgets f g =
      (off : ℕ) (es : List Direct) (p : Position dev dt F) (io : Io)
      → forget (f off es p io) ≡ g off es (reader p) io

  F-refused : (c : C) (dep : Direct) (pos t : ℕ) → emit c dep t ≡ none → F c dep pos t ≡ (c, some e)
  F-refused c dep pos t x = ap (answer e c) x

  F-taken : (c d : C) (dep : Direct) (pos t : ℕ) → emit c dep t ≡ some d → F c dep pos t ≡ (d, none)
  F-taken c d dep pos t x = ap (answer e c) x

  step-forget :
      (rest : ℕ → List Direct → Position dev dt F → K (Position dev dt F × Option E))
      (rest' : ℕ → List Direct → Reader dev dt emit → K (Reader dev dt emit))
      → Forgets rest rest'
      → Forgets
          (λ off es p. readdir_step dev dt F off es p rest)
          (λ off es r. read_step dev dt emit off es r rest')
  unfolding readdir_step read_step fill offer
  step-forget rest rest' h off [] p io = refl
  step-forget rest rest' h off (dep ∷ es) p io =
      let next = add64 off dep.d_reclen in
      let more : (p' : Position dev dt F)
          → forget (rest next es (go_on dev dt F off dep p') io)
            ≡ rest' next es (advance dev dt emit off dep (reader p')) io =
        λ p'.
          h next es (go_on dev dt F off dep p') io
          ∙ ap (λ r. rest' next es r io) (go_on-advance off dep p') in
      elim (Bool-cases (leb p.f_pos off && not (dep.d_ino == tarblk_none))) [
        | inl c ↦ elim (asked (emit p.dirent dep (get_dtype dt dep.d_ftype))) [
          | refused x ↦
              let filled : fill dev dt F off dep p ≡ (p, some e) =
                rw (fill, c, F-refused p.dirent dep p.f_pos (get_dtype dt dep.d_ftype) x) refl in
              rw (readdir_step, read_step, offer, filled, c, x) refl
          | taken d x ↦
              let filled : fill dev dt F off dep p ≡ (record p { dirent = d }, none) =
                rw (fill, c, F-taken p.dirent d dep p.f_pos (get_dtype dt dep.d_ftype) x) refl in
              rw (readdir_step, read_step, offer, filled, c, x) (more (record p { dirent = d }))
        ]
        | inr c ↦
            let filled : fill dev dt F off dep p ≡ (p, none) = rw (fill, c) refl in
            rw (readdir_step, read_step, offer, filled, c) (more p)
      ]

  bind-forget :
      {A : Type 0} (r : Run A) (f : A → K (Position dev dt F × Option E))
      (g : A → K (Reader dev dt emit))
      → ((a : A) (io : Io) → forget (f a io) ≡ g a io)
      → forget (and_then r f) ≡ and_then r g
  bind-forget (ok a io) f g h = h a io
  bind-forget (fail x io) f g h = refl
  bind-forget fault f g h = refl
  bind-forget out_of_fuel f g h = refl

  loop-forget :
      (k : ℕ) (parentp : Dinode)
      → Forgets (readdir_loop dev dt F k parentp) (read_loop dev dt emit k parentp)
  unfolding readdir_loop read_loop
  loop-forget zero parentp off es p io = elim (Bool-cases (ltb off parentp.di_size)) [
    | inl h ↦ rw h refl
    | inr h ↦ rw h refl
  ]
  loop-forget (suc k) parentp off es p io = elim (Bool-cases (ltb off parentp.di_size)) [
    | inl h ↦ rw h (
        bind-forget (load_entries dev parentp off es io) _ _ λ es' io'.
          step-forget (readdir_loop dev dt F k parentp) (read_loop dev dt emit k parentp)
            (loop-forget k parentp) off es' p io')
    | inr h ↦ rw h refl
  ]

  release-forget :
      (r : Run (Position dev dt F × Option E)) → forget (release r) ≡ release (forget r)
  unfolding release
  release-forget (ok a io) = refl
  release-forget (fail x io) = refl
  release-forget fault = refl
  release-forget out_of_fuel = refl

-- With a callback that takes or refuses an entry whatever its position, `tarfs_readdir` of the older kernels
-- ends as `tarfs_iterate` of the newer ones does, on each directory and device: the callback has been given
-- the same entries, the position is the same, and so is the number of buffers that are held.
pub tarfs_readdir-tarfs_iterate :
    {C E : Type 0} (dev : Device) (dt : FileTypes) (emit : Emit C) (e : E) (parentp : Dinode)
    (pos : ℕ) (ctx : C) (refs : ℕ)
    → forget dev dt emit e (
        tarfs_readdir dev dt
          (filldir_of e emit)
          parentp
          (record { f_pos = pos; dirent = ctx })
          refs)
      ≡ tarfs_iterate dev dt emit parentp (record { pos = pos; ctx = ctx }) refs
unfolding tarfs_readdir tarfs_iterate
tarfs_readdir-tarfs_iterate dev dt emit e parentp pos ctx refs =
    release-forget dev dt emit e _
    ∙ ap release (
        loop-forget dev dt emit e parentp.di_size parentp (pos - pos % tar_blocksize) []
          (record { f_pos = pos; dirent = ctx }) (lnx_io_init refs))

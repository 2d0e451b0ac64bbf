-- ===== src/Directory/Slots.antt =====
-- The new entry in a block of a directory: what `tarfs_lookup` takes for a slot has room for it.
use tarfs.Base.{
  ℕ, zero, suc, ◌+◌, ◌-◌, ◌%◌, ◌^◌, ◌≤◌, ◌<◌, ◌≡◌, ◌≢◌, refl, ap, ◌∙◌, true, false, inl, inr,
  Bool-cases, List, [], ◌∷◌, ◌++◌, ltb, leb, ◌==◌, ◌&&◌, if◌then◌else◌, arith, All, All-append,
  All-split, take, ne→==,
}
use tarfs.Meta.{Bytes, Direct, tarblk_none, tar_blocksize, dirent_size, direct_size}
use tarfs.Manager.{Incore}
use tarfs.Directory.{
  LookupOp, free_size, has_space, Placed, placed, place_behind, new_entry, fill_slot, at_offset,
}

-- The bytes that the entries take
unfoldable pub record_len : List Direct → ℕ
record_len [] = 0
record_len (dp ∷ es) = dp.d_reclen + record_len es

-- An entry has room for its name.
unfoldable pub Fitted : Direct → Type 0
Fitted dp = dirent_size dp.d_namelen ≤ dp.d_reclen

-- The files of a block, by number and name
pub files : List Direct → List (ℕ × Bytes)
files [] = []
files (dp ∷ es) =
    let rest = files es in
    if dp.d_ino == tarblk_none then rest else (dp.d_ino, take dp.d_namelen dp.d_name) ∷ rest

dirent_size-positive : (dp : Direct) → Fitted dp → 0 < dp.d_reclen
unfolding Fitted dirent_size
dirent_size-positive dp h = omega arith

files-append : (xs ys : List Direct) → files (xs ++ ys) ≡ files xs ++ files ys
unfolding files
files-append [] ys = refl
files-append (x ∷ xs) ys = elim (Bool-cases (x.d_ino == tarblk_none)) [
  | inl h ↦ rw (files, h) (files-append xs ys)
  | inr h ↦ rw (files, h) (ap (λ t. (x.d_ino, take x.d_namelen x.d_name) ∷ t) (files-append xs ys))
]

pub record_len-append :
    (xs ys : List Direct) → record_len (xs ++ ys) ≡ record_len xs + record_len ys
unfolding record_len
record_len-append [] ys = omega arith
record_len-append (x ∷ xs) ys = omega (arith, record_len-append xs ys)

sum-whole :
    (before : List Direct) (dp : Direct) (after : List Direct)
    → record_len (before ++ dp ∷ after) ≡ tar_blocksize
    → record_len before + (dp.d_reclen + record_len after) ≡ tar_blocksize
unfolding record_len
sum-whole before dp after h = omega (arith, record_len-append before (dp ∷ after))

take-take : (n : ℕ) (cs : Bytes) → take n (take n cs) ≡ take n cs
take-take zero cs = refl
take-take (suc n) [] = refl
take-take (suc n) (c ∷ cs) = ap (λ t. c ∷ t) (take-take n cs)

-- The entries at the offset
at_offset-behind :
    (fill : Direct → List Direct → Placed) (before : List Direct) (dp : Direct)
    (after : List Direct) {es : List Direct}
    → All Fitted before
    → fill dp after ≡ placed es
    → at_offset fill (record_len before) (before ++ dp ∷ after) ≡ placed (before ++ es)
unfolding at_offset record_len
at_offset-behind fill [] dp after fitted filled = filled
at_offset-behind fill (b ∷ before) dp after fitted filled =
    let pos : 0 < b.d_reclen = dirent_size-positive b fitted.0 in
    let some_left : (b.d_reclen + record_len before == 0) ≡ false = ground arith in
    let behind : ltb (b.d_reclen + record_len before) b.d_reclen ≡ false = ground arith in
    let rest : b.d_reclen + record_len before - b.d_reclen ≡ record_len before = omega arith in
    rw (at_offset, record_len, some_left, behind, rest)
      (ap (place_behind b) (at_offset-behind fill before dp after fitted.1 filled))

module _ (op : LookupOp) (dp : Direct) (space : has_space op dp ≡ true) where
  has_space-unused : (dp.d_ino == tarblk_none) ≡ true → op.lo_needspace ≤ dp.d_reclen
  unfolding has_space free_size
  has_space-unused h =
      let test : (ltb 0 dp.d_reclen && leb op.lo_needspace dp.d_reclen) ≡ true =
        rw (has_space, free_size, h) at space in
      ground arith

  has_space-used :
      (dp.d_ino == tarblk_none) ≡ false → dirent_size dp.d_namelen + op.lo_needspace ≤ dp.d_reclen
  unfolding has_space free_size dirent_size direct_size
  has_space-used h =
      let test : (ltb 0 (dp.d_reclen - direct_size dp)
            && leb op.lo_needspace (dp.d_reclen - direct_size dp))
          ≡ true =
        rw (has_space, free_size, h) at space in
      ground arith

module _ (icp : Incore) (fname : Bytes) (namelen : ℕ) where
  -- What the slot `dp` becomes
  slotted : Direct → List Direct
  slotted dp =
      if dp.d_ino == tarblk_none
      then new_entry icp fname namelen dp.d_reclen ∷ []
      else (record dp { d_reclen = dirent_size dp.d_namelen })
        ∷ new_entry icp fname namelen (dp.d_reclen - dirent_size dp.d_namelen)
        ∷ []

  module _ (dp : Direct) (after : List Direct) (inx : ℕ) (fits : Fitted dp)
      (whole : inx + dp.d_reclen ≤ tar_blocksize) where
    fill_slot-slotted : fill_slot icp fname namelen inx dp after ≡ placed (slotted dp ++ after)
    unfolding fill_slot slotted Fitted
    fill_slot-slotted =
        let size : dirent_size dp.d_namelen % 2 ^ 16 ≡ dirent_size dp.d_namelen = omega arith in
        let left : (dp.d_reclen + 2 ^ 17 - dirent_size dp.d_namelen) % 2 ^ 16
            ≡ (dp.d_reclen - dirent_size dp.d_namelen) % 2 ^ 16 =
          omega arith in
        let test : leb
              ((dp.d_reclen - dirent_size dp.d_namelen) % 2 ^ 16 + inx + dirent_size dp.d_namelen)
              tar_blocksize
            ≡ true =
          ground arith in
        elim (Bool-cases (dp.d_ino == tarblk_none)) [
          | inl h ↦ rw (fill_slot, slotted, h) refl
          | inr h ↦ rw (fill_slot, slotted, h, size, left, test) refl
        ]

    slotted-record_len : record_len (slotted dp ++ after) ≡ dp.d_reclen + record_len after
    unfolding slotted record_len Fitted
    slotted-record_len = elim (Bool-cases (dp.d_ino == tarblk_none)) [
      | inl h ↦ rw (slotted, h) (omega arith)
      | inr h ↦ rw (slotted, h) (omega arith)
    ]

    module _ (op : LookupOp) (small : namelen < 2 ^ 15)
        (need : op.lo_needspace ≡ dirent_size namelen) (space : has_space op dp ≡ true) where
      slotted-Fitted : All Fitted (slotted dp)
      unfolding slotted Fitted
      slotted-Fitted =
          let len : namelen % 2 ^ 16 ≡ namelen = omega arith in
          elim (Bool-cases (dp.d_ino == tarblk_none)) [
            | inl h ↦
                rw (slotted, h, len)
                  (let room = has_space-unused op dp space h in (omega arith, tt))
            | inr h ↦
                rw (slotted, h, len)
                  (let room = has_space-used op dp space h in (omega arith, (omega arith, tt)))
          ]

      slotted-files :
          icp.i_ino ≢ tarblk_none
          → files (slotted dp ++ after)
            ≡ files (dp ∷ []) ++ (icp.i_ino, take namelen fname) ∷ files after
      unfolding slotted files
      slotted-files used =
          let len : namelen % 2 ^ 16 ≡ namelen = omega arith in
          let ino = ne→== icp.i_ino tarblk_none used in
          elim (Bool-cases (dp.d_ino == tarblk_none)) [
            | inl h ↦ rw (slotted, files, h, len, ino, take-take namelen fname) refl
            | inr h ↦ rw (slotted, files, h, len, ino, take-take namelen fname, h) refl
          ]

-- What the block `es` has become
pub record HasFile (icp : Incore) (fname : Bytes) (namelen : ℕ) (before : List Direct) (dp : Direct)
    (after es : List Direct) : Type 0 where
  pub filled : record_len es ≡ tar_blocksize
  pub fitted : All Fitted es
  pub named :
      files es ≡ files before ++ (files (dp ∷ []) ++ (icp.i_ino, take namelen fname) ∷ files after)

pub data PlacedAs (P : List Direct → Type 0) : Placed → Type 0 where
  placed_as : {es : List Direct} → P es → PlacedAs P (placed es)

-- Let the entries of a block fill it, each with room for its name, and let `tarfs_lookup` take one
-- of them for a slot for a name of less than 2^15 bytes. Then `tarfs_create` puts the new entry in
-- that block without a failed ASSERT; afterwards the entries fill the block, each with room for its
-- name, and the block has the files that it had and the new one, which stands behind that of the slot
-- if there is one.
pub fill_slot-HasFile :
    (icp : Incore) (fname : Bytes) (namelen : ℕ) (op : LookupOp) (before : List Direct)
    (dp : Direct) (after : List Direct)
    → record_len (before ++ dp ∷ after) ≡ tar_blocksize
    → All Fitted (before ++ dp ∷ after)
    → namelen < 2 ^ 15
    → op.lo_needspace ≡ dirent_size namelen
    → has_space op dp ≡ true
    → icp.i_ino ≢ tarblk_none
    → PlacedAs (HasFile icp fname namelen before dp after) (
        at_offset
          (fill_slot icp fname namelen (record_len before))
          (record_len before)
          (before ++ dp ∷ after))
fill_slot-HasFile icp fname namelen op before dp after full fitted small need space used =
    let inx = record_len before in
    let (fit_before, fit_on) = All-split Fitted before (dp ∷ after) fitted in
    let sum : inx + (dp.d_reclen + record_len after) ≡ tar_blocksize =
      sum-whole before dp after full in
    let new = slotted icp fname namelen dp in
    let filled = fill_slot-slotted icp fname namelen dp after inx fit_on.0 (omega arith) in
    let len = slotted-record_len icp fname namelen dp after inx fit_on.0 (omega arith) in
    rw (at_offset-behind (fill_slot icp fname namelen inx) before dp after fit_before filled) (
      placed_as (record {
        filled = record_len-append before (new ++ after) ∙ ap (λ t. inx + t) len ∙ sum;
        fitted = All-append Fitted before (new ++ after) fit_before (
            All-append Fitted new after
              (slotted-Fitted icp fname namelen dp after inx fit_on.0 (omega arith) op small need
                space)
              fit_on.1);
        named =
            files-append before (new ++ after)
            ∙ ap (λ t. files before ++ t)
                (slotted-files icp fname namelen dp after inx fit_on.0 (omega arith) op small need
                  space used);
      }))

-- ===== src/Android/Parsing.antt =====
-- `Parser::get` of the Android version against that of cmd_c++.
use tarfs.Base.{
  ℕ, ◌+◌, ◌-◌, ◌*◌, ◌<◌, ◌≡◌, ◌≢◌, refl, ap, subst, sym, ◌++◌, Bool, true, false, inl, inr,
  Bool-cases, Option, none, some, ltb, leb, ◌==◌, ◌||◌, if◌then◌else◌, zero, suc, arith,
}
use tarfs.Meta.{PosixHeader, Bytes, tar_blocksize, tarfs_blocks, tarfs_gnu_longname}
use tarfs.Manager.{Block, header, contents, free_data, dinode, ind_ext, dir_data, sblock, World}
use tarfs.Header.{getval8}
use tarfs.Mkfs.{pread, is_posix_type, read_path, unnamed}
use tarfs.Maker.Parser.{Found, find_header, found_file, parse_block, get_file}
use tarfs.Android.Transfers.{no_io_error}
use tarfs.Maker.Parser.{posix_header, long_named, long_named_at, parse_posix}
use tarfs.Android.Parser.{
  parse_posix_io, Reads, value, unfilled, reading_of, with_path, find_header_io, found_of,
  parse_block_io, get_file_io,
}

-- What the C++ version makes of it: it takes a short read for an error.
pub data Follows {A : Type 0} : Reads A → Option A → Type 0 where
  same : (x : Option A) → Follows (value x) x
  short : Follows unfilled none

reading_of-Follows :
    {A : Type 0} (n blkno : ℕ) (w : World) {r : Reads A} {x : Option A}
    → ((n == 0 || leb (blkno + n) w.size) ≡ true → Follows r x)
    → (n ≢ 0 → w.size < blkno + n → x ≡ none)
    → Follows (reading_of 0 n blkno w r) x
unfolding reading_of
reading_of-Follows n blkno w inside behind =
    let clean =
      no_io_error (blkno * tar_blocksize)
        ((if leb (blkno + n) w.size then n else w.size - blkno) * tar_blocksize) in
    elim (Bool-cases (n == 0 || leb (blkno + n) w.size)) [
      | inl t ↦ rw (reading_of, clean, t) (inside t)
      | inr t ↦ rw (reading_of, clean, t, behind (ground arith) (ground arith)) short
    ]

no_text :
    (b : Block) (rest : Option Bytes)
    → rest ≡ none
    → (elim b as (λ x. Option Bytes) [
      | contents c ↦ elim rest as (λ x. Option Bytes) [ none ↦ none | some bs ↦ some (c ++ bs) ]
      | _ ↦ none
    ])
      ≡ none
no_text (header ph) rest e = refl
no_text (contents c) rest e =
    ap (λ r. elim r as (λ x. Option Bytes) [ none ↦ none | some bs ↦ some (c ++ bs) ]) e
no_text (free_data x) rest e = refl
no_text (dinode x) rest e = refl
no_text (ind_ext x) rest e = refl
no_text (dir_data x) rest e = refl
no_text (sblock x) rest e = refl

-- A long name that is not all in the file
read_path-none : (n blkno : ℕ) (w : World) → n ≢ 0 → w.size < blkno + n → read_path n blkno w ≡ none
unfolding read_path
read_path-none zero blkno w some_blocks behind = elim (some_blocks refl) [ ]
read_path-none (suc n) blkno w some_blocks behind = elim (Bool-cases (ltb blkno w.size)) [
  | inl h ↦
      rw (read_path, h)
        (no_text (w.blocks blkno) (read_path n (blkno + 1) w)
          (read_path-none n (blkno + 1) w (ground arith) (ground arith)))
  | inr h ↦ rw (read_path, h) refl
]

pread-inside :
    (blkno : ℕ) (w : World) → ltb blkno w.size ≡ true → pread blkno w ≡ some (w.blocks blkno)
pread-inside blkno w h = rw h refl

pread-none : (blkno : ℕ) (w : World) → ltb blkno w.size ≡ false → pread blkno w ≡ none
pread-none blkno w h = rw h refl

long_named_at-Follows :
    (tarblk : ℕ) (w : World) (path : Bytes)
    → Follows
        (reading_of 0 1 tarblk w (value (long_named tarblk path (posix_header (w.blocks tarblk)))))
        (long_named_at tarblk path (pread tarblk w))
unfolding long_named_at
long_named_at-Follows tarblk w path =
    reading_of-Follows 1 tarblk w
      (λ t.
        subst
          (λ b.
            Follows (value (long_named tarblk path (posix_header (w.blocks tarblk))))
              (long_named_at tarblk path b))
          (sym (pread-inside tarblk w (ground arith))) (same _))
      λ n behind. ap (long_named_at tarblk path) (pread-none tarblk w (ground arith))

with_path-Follows :
    (tarblk : ℕ) (w : World) (path : Option Bytes)
    → Follows
        (with_path path λ p.
          reading_of 0 1 tarblk w (value (long_named tarblk p (posix_header (w.blocks tarblk)))))
        (elim path as (λ x. Option Found) [
          | none ↦ none
          | some p ↦ long_named_at tarblk p (pread tarblk w)
        ])
with_path-Follows tarblk w none = same none
with_path-Follows tarblk w (some path) = long_named_at-Follows tarblk w path

long_name :
    (blks blkno tarblk : ℕ) (w : World)
    → Follows
        (reading_of 0 blks blkno w (
          with_path (read_path blks blkno w) λ path.
            reading_of 0 1 tarblk w
              (value (long_named tarblk path (posix_header (w.blocks tarblk))))))
        (elim (read_path blks blkno w) as (λ x. Option Found) [
          | none ↦ none
          | some p ↦ long_named_at tarblk p (pread tarblk w)
        ])
long_name blks blkno tarblk w =
    reading_of-Follows blks blkno w (λ t. with_path-Follows tarblk w (read_path blks blkno w))
      λ n behind.
        ap
          (λ x. elim x as (λ y. Option Found) [
            | none ↦ none
            | some p ↦ long_named_at tarblk p (pread tarblk w)
          ])
          (read_path-none blks blkno w n behind)

Follows-if :
    {A : Type 0} {r r' : Reads A} {x x' : Option A} (b : Bool)
    → Follows r x
    → Follows r' x'
    → Follows (if b then r else r') (if b then x else x')
Follows-if true h h' = h
Follows-if false h h' = h'

find_header-Follows :
    (w : World) (curoff : ℕ) (ph : PosixHeader)
    → Follows (find_header_io 0 w curoff ph) (find_header w curoff ph)
unfolding find_header_io find_header long_named_at
find_header-Follows w curoff ph =
    let blks = tarfs_blocks (getval8 ph.size) in
    Follows-if (is_posix_type ph.typeflag) (same _) (
      Follows-if (ph.typeflag == tarfs_gnu_longname)
        (long_name blks (curoff + 1) (curoff + 1 + blks) w) (same none))

found_of-Follows :
    {r : Reads Found} {x : Option Found} → Follows r x → Follows (found_of r) (found_file x)
unfolding found_file
found_of-Follows (same x) = same (found_file x)
found_of-Follows short = short

parse_posix_io-Follows :
    (w : World) (curoff : ℕ) (h : Option PosixHeader)
    → Follows (parse_posix_io 0 w curoff h) (parse_posix w curoff h)
unfolding parse_posix_io parse_posix
parse_posix_io-Follows w curoff none = same none
parse_posix_io-Follows w curoff (some ph) =
    Follows-if (unnamed ph) (same none) (found_of-Follows (find_header-Follows w curoff ph))

parse_block_io-Follows :
    (w : World) (curoff : ℕ) (b : Block)
    → Follows (parse_block_io 0 w curoff b) (parse_block w curoff (some b))
unfolding parse_block_io parse_block
parse_block_io-Follows w curoff b = parse_posix_io-Follows w curoff (posix_header b)

-- With `errno` at 0, `Parser::get` of the Android version gives what that of the C++ version gives, the NULLs
-- included, but for one case: where the C++ version gives NULL because a header or a long name is not all in
-- the file, the Android version goes on with what its buffer held before.
pub get_file_io-Follows :
    (w : World) (curoff : ℕ) → Follows (get_file_io 0 w curoff) (get_file w curoff)
unfolding get_file_io get_file parse_block
get_file_io-Follows w curoff =
    reading_of-Follows 1 curoff w
      (λ t.
        subst (λ b. Follows (parse_block_io 0 w curoff (w.blocks curoff)) (parse_block w curoff b))
          (sym (pread-inside curoff w (ground arith)))
          (parse_block_io-Follows w curoff (w.blocks curoff)))
      λ n behind. ap (parse_block w curoff) (pread-none curoff w (ground arith))

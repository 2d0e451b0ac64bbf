-- ===== src/Maker/Data.antt =====
-- A file's data are found in the archive, where `Parser::get` has seen them.
use tarfs.Base.{
  ℕ, zero, suc, ◌+◌, ◌-◌, ◌^◌, ◌<◌, ◌≡◌, refl, ap, ◌∙◌, subst, true, inl, inr, Bool-cases, Option,
  none, some, List, ◌∷◌, ltb, leb, add64, arith,
}
use tarfs.Meta.{Bytes, Dext, tarfs_regtype, tarfs_blocks}
use tarfs.Header.{get_ftype, getval8}
use tarfs.Meta.{PosixHeader}
use tarfs.Manager.{Block, World}
use tarfs.Mkfs.{pread, unnamed}
use tarfs.Extent.{find_extent, block_at, direct_num}
use tarfs.Maker.{Inode, Maker, ok}
use tarfs.Maker.Files.{File, get_file_size, get_num_extents, set_file}
use tarfs.Maker.Extents.{get_block}
use tarfs.Maker.Parser.{
  Found, data_blks, file_at, file_of, find_header, found_file, posix_header, parse_posix,
  parse_block, get_file,
}

-- the extent of the file's data behind its header
abbrev data_extent : File → Dext
data_extent f = record { de_off = 0; de_blkno = f.blkno_header + 1; de_nblks = data_blks f.header }

file_of-extent :
    (f : Found) (names : Option (List Bytes)) (file : File) (next : ℕ)
    → file_of f names ≡ some (file, next)
    → file.addr_extent ≡ data_extent file
unfolding file_of
file_of-extent f none file next e = absurd cc
file_of-extent f (some names) file next e =
    let same : file_at f names ≡ file = cc in subst (λ r. r.addr_extent ≡ data_extent r) same refl

found_file-extent :
    (x : Option Found) (file : File) (next : ℕ)
    → found_file x ≡ some (file, next)
    → file.addr_extent ≡ data_extent file
unfolding found_file
found_file-extent none file next e = absurd cc
found_file-extent (some f) file next e = file_of-extent f _ file next e

no_file : (file : File) (next : ℕ) → (◌≡◌ {A = Option (File × ℕ)} none (some (file, next))) → ⊥
no_file file next e = cc

parse_posix-extent :
    (w : World) (curoff : ℕ) (h : Option PosixHeader) (file : File) (next : ℕ)
    → parse_posix w curoff h ≡ some (file, next)
    → file.addr_extent ≡ data_extent file
unfolding parse_posix
parse_posix-extent w curoff none file next e = absurd cc
parse_posix-extent w curoff (some ph) file next e = elim (Bool-cases (unnamed ph)) [
  | inl h ↦ absurd (no_file file next (rw h at e))
  | inr h ↦ found_file-extent (find_header w curoff ph) file next (rw h at e)
]

parse_block-extent :
    (w : World) (curoff : ℕ) (b : Option Block) (file : File) (next : ℕ)
    → parse_block w curoff b ≡ some (file, next)
    → file.addr_extent ≡ data_extent file
unfolding parse_block
parse_block-extent w curoff none file next e = absurd cc
parse_block-extent w curoff (some b) file next e =
    parse_posix-extent w curoff (posix_header b) file next e

get_file-extent :
    (w : World) (curoff : ℕ) (file : File) (next : ℕ)
    → get_file w curoff ≡ some (file, next)
    → file.addr_extent ≡ data_extent file
unfolding get_file
get_file-extent w curoff file next e = parse_block-extent w curoff (pread curoff w) file next e

-- An inode with one extent that has the block
get_block-one :
    (i : Inode) (off : ℕ) (s : Maker) (x : Dext) (es : List Dext)
    → i.dinode.di_nextents ≡ 1
    → i.dinode.di_direct_extent ≡ x ∷ es
    → leb x.de_off off ≡ true
    → ltb off (add64 x.de_off x.de_nblks) ≡ true
    → get_block i off s ≡ ok (some (block_at x off)) s
unfolding get_block find_extent direct_num
get_block-one i off s x es one extents above below = rw (one, extents, above, below) refl

add64_inside : (n off : ℕ) → off < n → n < 2 ^ 64 → ltb off (add64 0 n) ≡ true
add64_inside n off inside fits = ground arith

add64_sum : (b off : ℕ) → b + 1 + off < 2 ^ 64 → add64 (b + 1) (off - 0) ≡ b + 1 + off
add64_sum b off fits = omega arith

not_empty : (n : ℕ) → 0 < tarfs_blocks n → ltb 0 n ≡ true
not_empty zero h = absurd (omega arith)
not_empty (suc n) h = ground arith

regular-extents :
    (file : File)
    → file.header.typeflag ≡ tarfs_regtype
    → 0 < tarfs_blocks (getval8 file.header.size)
    → get_num_extents file ≡ 1
unfolding get_num_extents get_file_size get_ftype
regular-extents file e full = rw (e, not_empty (getval8 file.header.size) full) refl

module _ (file : File) (i : Inode) (regular : file.header.typeflag ≡ tarfs_regtype) where
  set_file-extents :
      (x : Dext) (es : List Dext)
      → i.dinode.di_direct_extent ≡ x ∷ es
      → (set_file file i).dinode.di_direct_extent ≡ file.addr_extent ∷ es
  unfolding set_file get_ftype
  set_file-extents x es room = rw (regular, room) refl

  set_file-num : (set_file file i).dinode.di_nextents ≡ get_num_extents file
  unfolding set_file get_ftype
  set_file-num = rw regular refl

-- Let `Parser::get` return a regular file, and its data have a block `off`. Then `getBlock` of the inode
-- that `setFile` fills for the file gives for `off` the block of the archive that lies `off` blocks behind
-- the one behind the file's header. The inode's array must have room, and the number fit in 64 bits.
pub get_block-set_file :
    (w : World) (curoff next : ℕ) (file : File) (i : Inode) (x : Dext) (es : List Dext) (off : ℕ)
    (s : Maker)
    → get_file w curoff ≡ some (file, next)
    → file.header.typeflag ≡ tarfs_regtype
    → off < tarfs_blocks (getval8 file.header.size)
    → i.dinode.di_direct_extent ≡ x ∷ es
    → file.blkno_header + 1 + tarfs_blocks (getval8 file.header.size) < 2 ^ 64
    → get_block (set_file file i) off s ≡ ok (some (file.blkno_header + 1 + off)) s
get_block-set_file w curoff next file i x es off s parsed regular inside room fits =
    let extent = get_file-extent w curoff file next parsed in
    let blks : data_blks file.header ≡ tarfs_blocks (getval8 file.header.size) = rw regular refl in
    let one : (set_file file i).dinode.di_nextents ≡ 1 =
      set_file-num file i regular ∙ regular-extents file regular (omega arith) in
    get_block-one (set_file file i) off s file.addr_extent es one
      (set_file-extents file i regular x es room) (rw extent (ground arith))
      (rw (extent, blks)
        (add64_inside (tarfs_blocks (getval8 file.header.size)) off inside (omega arith)))
    ∙ ap (λ e. ok (some (block_at e off)) s) extent
    ∙ ap (λ b. ok (some b) s) (add64_sum file.blkno_header off (omega arith))

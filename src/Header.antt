-- ===== src/Header.antt =====
-- cmd/tarfs_common.c: the fields of a tar header, `getval8` and `getFtype`.
pub mod Octal
use tarfs.Base.{
  ℕ, suc, ◌+◌, ◌-◌, ◌*◌, ◌%◌, ◌^◌, Bool, [], ◌∷◌, ltb, leb, ◌==◌, ◌&&◌, ◌||◌, if◌then◌else◌,
}
use tarfs.Meta.{
  Bytes, tarfs_regtype, tarfs_dirtype, tarfs_symtype, tarfs_ifreg, tarfs_ifdir, tarfs_iflnk,
}

-- isspace(3)
abbrev pub isspace : ℕ → Bool
isspace c = c == b' ' || (leb 9 c && leb c 13)

-- for(i=0; i<siz; i++) if (!isspace(p[i])) break
unfoldable pub skip_spaces : Bytes → Bytes
skip_spaces [] = []
skip_spaces (c ∷ cs) = if isspace c then skip_spaces cs else c ∷ cs

abbrev pub is_octal : ℕ → Bool
is_octal c = leb b'0' c && leb c b'7'

-- the digits that strtoull(3) reads in base 8, up to the first other character
unfoldable pub octal : ℕ → Bytes → ℕ
octal acc [] = acc
octal acc (c ∷ cs) = if is_octal c then octal (acc * 8 + (c - b'0')) cs else acc

abbrev pub ullong_max : ℕ
ullong_max = 2 ^ 64 - 1

abbrev saturate : ℕ → ℕ
saturate v = if ltb ullong_max v then ullong_max else v

-- the negation of an `unsigned long long` that did not overflow
abbrev negate : ℕ → ℕ
negate v = if ltb ullong_max v then ullong_max else (2 ^ 64 - v) % 2 ^ 64

-- strtoull(buf, NULL, 8), behind the white space
strtoull8 : Bytes → ℕ
unfolding octal
strtoull8 [] = 0
strtoull8 (c ∷ cs) =
    if c == b'-'
    then negate (octal 0 cs)
    else if c == b'+'
    then saturate (octal 0 cs)
    else saturate (octal 0 (c ∷ cs))

-- getval8: the bytes of the field are those of `p`, and `siz` is their number.
unfoldable pub getval8 : Bytes → ℕ
unfolding skip_spaces strtoull8
getval8 p = strtoull8 (skip_spaces p)

-- getFtype: a file type that is not supported is `(uint32_t)-1`.
unfoldable pub get_ftype : ℕ → ℕ
get_ftype typeflag =
    if typeflag == tarfs_regtype
    then tarfs_ifreg
    else if typeflag == tarfs_dirtype
    then tarfs_ifdir
    else if typeflag == tarfs_symtype
    then tarfs_iflnk
    else 2 ^ 32 - 1

-- strlen(3) of the bytes at a pointer
unfoldable pub strlen : Bytes → ℕ
strlen [] = 0
strlen (c ∷ cs) = if c == 0 then 0 else suc (strlen cs)

-- ===== src/Maker/Parser.antt =====
-- cmd_c++/parser.cc: the class Parser. Its file is that of the FsMaker; `curoff` is passed on.
use tarfs.Base.{
  ℕ, zero, suc, ◌+◌, Bool, true, false, Option, none, some, List, [], ◌∷◌, ◌==◌, ◌&&◌,
  if◌then◌else◌, add64, length, take,
}
use tarfs.Meta.{Bytes, PosixHeader, tarfs_blocks, tarfs_regtype, tarfs_gnu_longname}
use tarfs.Manager.{Block, header, contents, World}
use tarfs.Header.{getval8}
use tarfs.Mkfs.{pread, is_posix_type, name_bytes, cstring, read_path, get_fname, unnamed}
use tarfs.Maker.Files.{File}

-- Nothing but separators is left.
unfoldable pub only_slashes : Bytes → Bool
only_slashes [] = true
only_slashes (c ∷ cs) = if c == b'/' then only_slashes cs else false

-- `.` and `..`
unfoldable pub is_dots : Bytes → Bool
is_dots (c ∷ []) = c == b'.'
is_dots (c ∷ d ∷ []) = c == b'.' && d == b'.'
is_dots _ = false

-- The loop of parsePath from `s` on, with a round of fuel for each byte. A name is taken up to the next
-- separator, if any byte that is no separator follows; it can be empty. `none` is NULL.
unfoldable pub parse_names : ℕ → Bytes → Option (List Bytes)
unfolding only_slashes is_dots
parse_names zero s = some []
parse_names (suc k) s =
    let next = get_fname s in
    let rest = parse_names k next.rest in
    if only_slashes s
    then some []
    else if is_dots next.fname
    then none
    else elim rest [ none ↦ none | some names ↦ some (next.fname ∷ names) ]

abbrev pub skip_slash : Bytes → Bytes
skip_slash [] = []
skip_slash (c ∷ cs) = if c == b'/' then cs else c ∷ cs

abbrev pub not_empty : List Bytes → Option (List Bytes)
not_empty [] = none
not_empty (n ∷ ns) = some (n ∷ ns)

-- Parser::parsePath. The source stores pointers into its caller's buffer; these are the bytes there.
unfoldable pub parse_path : Bytes → Option (List Bytes)
unfolding parse_names
parse_path path = elim (parse_names (length path + 1) (skip_slash path)) [
  | none ↦ none
  | some names ↦ not_empty names
]

-- the header, its block and the path, after a long name was read
pub record Found : Type 0 where
  pub tarblk : ℕ
  pub header : PosixHeader
  pub path : Bytes

-- The `len` bytes from byte `off` on
unfoldable pub slice : (off len : ℕ) → Bytes → Bytes
slice zero len bs = take len bs
slice (suc off) len [] = []
slice (suc off) len (c ∷ bs) = slice off len bs

abbrev pub first_byte : Bytes → ℕ
first_byte [] = 0
first_byte (c ∷ bs) = c

-- struct posix_header over the bytes of a block
abbrev pub header_of : Bytes → PosixHeader
header_of bs = record {
  name = slice 0 100 bs;
  mode = slice 100 8 bs;
  uid = slice 108 8 bs;
  gid = slice 116 8 bs;
  size = slice 124 12 bs;
  mtime = slice 136 12 bs;
  chksum = slice 148 8 bs;
  typeflag = first_byte (slice 156 1 bs);
  linkname = slice 157 100 bs;
  magic = slice 257 6 bs;
}

-- A block of the archive read as a header, which may be one of data. The bytes of mkfs's own structs, which
-- the parser comes to in an archive without a zero block at its end, are not modelled.
unfoldable pub posix_header : Block → Option PosixHeader
posix_header (header ph) = some ph
posix_header (contents bs) = some (header_of bs)
posix_header _ = none

-- the real header behind a long name
unfoldable pub long_named : ℕ → Bytes → Option PosixHeader → Option Found
long_named tarblk path none = none
long_named tarblk path (some ph) =
    some (record { tarblk = tarblk; header = ph; path = cstring path })

unfoldable pub long_named_at : ℕ → Bytes → Option Block → Option Found
unfolding long_named posix_header
long_named_at tarblk path none = none
long_named_at tarblk path (some b) = long_named tarblk path (posix_header b)

-- `switch (header.typeflag)` of Parser::get
unfoldable pub find_header : World → ℕ → PosixHeader → Option Found
unfolding long_named_at
find_header w curoff ph =
    let blks = tarfs_blocks (getval8 ph.size) in
    if is_posix_type ph.typeflag
    then some (record { tarblk = curoff; header = ph; path = cstring (name_bytes ph) })
    else if ph.typeflag == tarfs_gnu_longname
    then elim (read_path blks (curoff + 1) w) [
      | none ↦ none
      | some path ↦ long_named_at (curoff + 1 + blks) path (pread (curoff + 1 + blks) w)
    ]
    else none

abbrev pub data_blks : PosixHeader → ℕ
data_blks ph = if ph.typeflag == tarfs_regtype then tarfs_blocks (getval8 ph.size) else 0

abbrev pub file_at : Found → List Bytes → File
file_at f names = record {
  path = names;
  blkno_header = f.tarblk;
  header = f.header;
  addr_extent = record { de_off = 0; de_blkno = f.tarblk + 1; de_nblks = data_blks f.header };
}

-- The file, and `curoff` behind its data
unfoldable pub file_of : Found → Option (List Bytes) → Option (File × ℕ)
file_of f none = none
file_of f (some names) = some (file_at f names, add64 f.tarblk (data_blks f.header + 1))

unfoldable pub found_file : Option Found → Option (File × ℕ)
unfolding parse_path file_of
found_file none = none
found_file (some f) = file_of f (parse_path f.path)

unfoldable pub parse_posix : World → ℕ → Option PosixHeader → Option (File × ℕ)
unfolding find_header found_file
parse_posix w curoff none = none
parse_posix w curoff (some ph) = if unnamed ph then none else found_file (find_header w curoff ph)

-- What Parser::get makes of the block at `curoff`, whatever it holds
unfoldable pub parse_block : World → ℕ → Option Block → Option (File × ℕ)
unfolding parse_posix posix_header
parse_block w curoff none = none
parse_block w curoff (some b) = parse_posix w curoff (posix_header b)

-- Parser::get: the file and `curoff` after it; `none` is NULL.
unfoldable pub get_file : World → ℕ → Option (File × ℕ)
unfolding parse_block
get_file w curoff = parse_block w curoff (pread curoff w)

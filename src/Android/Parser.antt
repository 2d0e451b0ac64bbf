-- ===== src/Android/Parser.antt =====
-- Android/cmd/lib/parser.cpp: Parser::get, which is that of cmd_c++ but for TARFS_IO.
use tarfs.Base.{ℕ, ◌+◌, ◌-◌, ◌*◌, Option, none, some, leb, ◌==◌, ◌||◌, if◌then◌else◌}
use tarfs.Meta.{PosixHeader, Bytes, tar_blocksize, tarfs_blocks, tarfs_gnu_longname}
use tarfs.Manager.{Block, World}
use tarfs.Header.{getval8}
use tarfs.Mkfs.{is_posix_type, name_bytes, cstring, read_path, unnamed}
use tarfs.Maker.Files.{File}
use tarfs.Maker.Parser.{posix_header, long_named, Found, found_file}
use tarfs.Android.{Calls, tarfs_io}

-- What a call gives, or that it looks at memory which no read has filled
pub data Reads (A : Type 0) : Type 0 where
  value : Option A → Reads A
  unfilled : Reads A

-- TARFS_IO of `n` blocks from block `blkno` on: read(2) gives what the file has of them.
abbrev pub parser_calls : (errno n blkno : ℕ) → World → Calls
parser_calls errno n blkno w = record {
  moved = some (blkno * tar_blocksize);
  done = some ((if leb (blkno + n) w.size then n else w.size - blkno) * tar_blocksize);
  errno = errno;
}

-- The read of `n` blocks, and what is done with them; a short read is no error, and leaves them unfilled.
unfoldable pub reading_of : {A : Type 0} → (errno n blkno : ℕ) → World → Reads A → Reads A
unfolding tarfs_io
reading_of errno n blkno w rest =
    if tarfs_io (blkno * tar_blocksize) (parser_calls errno n blkno w) == 0
    then (if n == 0 || leb (blkno + n) w.size then rest else unfilled)
    else value none

-- the long name, and what is read next
abbrev pub with_path : Option Bytes → (Bytes → Reads Found) → Reads Found
with_path none rest = value none
with_path (some path) rest = rest path

-- `switch (header.typeflag)`
unfoldable pub find_header_io : (errno : ℕ) → World → ℕ → PosixHeader → Reads Found
unfolding reading_of long_named posix_header
find_header_io errno w curoff ph =
    let blks = tarfs_blocks (getval8 ph.size) in
    let tarblk = curoff + 1 + blks in
    if is_posix_type ph.typeflag
    then value (some (record { tarblk = curoff; header = ph; path = cstring (name_bytes ph) }))
    else if ph.typeflag == tarfs_gnu_longname
    then reading_of errno blks (curoff + 1) w (
        with_path (read_path blks (curoff + 1) w) λ path.
          reading_of errno 1 tarblk w
            (value (long_named tarblk path (posix_header (w.blocks tarblk)))))
    else value none

abbrev pub found_of : Reads Found → Reads (File × ℕ)
found_of (value x) = value (found_file x)
found_of unfilled = unfilled

unfoldable pub parse_posix_io : (errno : ℕ) → World → ℕ → Option PosixHeader → Reads (File × ℕ)
unfolding find_header_io
parse_posix_io errno w curoff none = value none
parse_posix_io errno w curoff (some ph) =
    if unnamed ph then value none else found_of (find_header_io errno w curoff ph)

unfoldable pub parse_block_io : (errno : ℕ) → World → ℕ → Block → Reads (File × ℕ)
unfolding parse_posix_io posix_header
parse_block_io errno w curoff b = parse_posix_io errno w curoff (posix_header b)

-- Parser::get
unfoldable pub get_file_io : (errno : ℕ) → World → ℕ → Reads (File × ℕ)
unfolding reading_of parse_block_io
get_file_io errno w curoff =
    reading_of errno 1 curoff w (parse_block_io errno w curoff (w.blocks curoff))

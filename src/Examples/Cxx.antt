-- ===== src/Examples/Cxx.antt =====
-- The C++ mkfs on the archive of one file.
use tarfs.Base.{ℕ, ◌≡◌, ◌≢◌, refl, false, some, List, [], ◌∷◌, arith}
use tarfs.Meta.{Bytes}
use tarfs.Extent.{get_data_block}
use tarfs.Maker.{Inode, Maker, ok, exited, rollback}
use tarfs.Maker.Parser.{
  get_file, parse_block, parse_posix, posix_header, found_file, file_of, find_header, only_slashes,
  is_dots, parse_names, parse_path, skip_slash,
}
use tarfs.Mkfs.{get_fname, is_posix_type, cstring}
use tarfs.Header.{getval8}
use tarfs.Maker.Files.{File, set_file}
use tarfs.Maker.Data.{get_block-set_file}
use tarfs.Maker.Main.{new_maker, is_fresh, make_root, mkfs_tarfs}
use tarfs.Maker.Factory.{init_factory}
use tarfs.Maker.Space.{alloc_block}
use tarfs.Manager.{World}
use tarfs.Maker.Extents.{get_block}
use tarfs.Maker.Agree.{as_maker, at_file, get_block-get_data_block}
use tarfs.Maker.Archive.{IsRestored}
use tarfs.Maker.Archive.Main.{mkfs_tarfs-IsRestored}
use tarfs.Maker.Paths.{path_of, IsPath, parse_path-IsPath}
use tarfs.Maker.Printing.{IsProper, parse_path-path_of}
use tarfs.Examples.{start}
use tarfs.Examples.Extent.{full_inode, scattered}
use tarfs.Examples.Mkfs.{one_file, file_header, one_file-Tarred}

abbrev one_file_maker : Maker
one_file_maker = new_maker one_file 0 false

abbrev full : Inode
full = record { ftype = 1; is_mod = false; ino = 7; pino = 5; blkno = 40; dinode = full_inode }

-- `/d//f/`, with an empty name
abbrev rooted_path : Bytes
rooted_path = b'/' ∷ b'd' ∷ b'/' ∷ b'/' ∷ b'f' ∷ b'/' ∷ []

abbrev rooted_names : List Bytes
rooted_names = (b'd' ∷ []) ∷ [] ∷ (b'f' ∷ []) ∷ []

parse_rooted : parse_path rooted_path ≡ some rooted_names
unfolding parse_path parse_names only_slashes is_dots get_fname
parse_rooted = refl

get_block-get_data_block_example :
    get_block full 9 one_file_maker
    ≡ as_maker (get_data_block full_inode 9 (at_file one_file_maker start)) one_file_maker
get_block-get_data_block_example = get_block-get_data_block full 9 one_file_maker start

parse_path-IsPath_example : IsPath (skip_slash rooted_path) rooted_names × (rooted_names ≢ [])
parse_path-IsPath_example = parse_path-IsPath rooted_path rooted_names parse_rooted

one_byte : (c d : ℕ) → c ≢ d → c ∷ [] ≢ d ∷ []
one_byte c d h e = h cc

letter-IsProper : (c : ℕ) → c ≢ b'/' → c ≢ b'.' → IsProper (c ∷ [])
letter-IsProper c slash dot = (((slash, tt), one_byte c b'.' dot, λ e. absurd cc), λ e. absurd cc)

parse_path-path_of_example :
    parse_path (path_of ((b'd' ∷ []) ∷ (b'f' ∷ []) ∷ [])) ≡ some ((b'd' ∷ []) ∷ (b'f' ∷ []) ∷ [])
parse_path-path_of_example = parse_path-path_of (b'd' ∷ []) ((b'f' ∷ []) ∷ []) (
  letter-IsProper b'd' (omega arith) (omega arith),
  (letter-IsProper b'f' (omega arith) (omega arith), tt),
)

-- No memory is left for the first chunk of inodes.
abbrev starved : World
starved = record one_file { memory = 0 }

abbrev starved_end : Maker
starved_end = new_maker starved 0 false

mkfs_starved : mkfs_tarfs starved 0 false ≡ exited starved_end
unfolding mkfs_tarfs is_fresh make_root init_factory alloc_block rollback
mkfs_starved = refl

mkfs_tarfs-IsRestored_example : IsRestored starved starved_end.world
mkfs_tarfs-IsRestored_example =
    mkfs_tarfs-IsRestored starved 0 false starved_end one_file-Tarred mkfs_starved

abbrev parsed_file : File
parsed_file = record {
  path = (b'd' ∷ []) ∷ (b'f' ∷ []) ∷ [];
  blkno_header = 0;
  header = file_header;
  addr_extent = record { de_off = 0; de_blkno = 1; de_nblks = 1 };
}

get_one_file : get_file one_file 0 ≡ some (parsed_file, 2)
unfolding get_file parse_block parse_posix posix_header found_file file_of find_header parse_path
    parse_names only_slashes is_dots get_fname is_posix_type cstring getval8
get_one_file = refl

get_block-set_file_example :
    get_block (set_file parsed_file full) 0 one_file_maker ≡ ok (some 1) one_file_maker
unfolding getval8
get_block-set_file_example =
    get_block-set_file one_file 0 2 parsed_file full
      (record { de_off = 0; de_blkno = 600; de_nblks = 1 }) (scattered 1 16) 0 one_file_maker
      get_one_file refl (omega arith) refl (omega arith)

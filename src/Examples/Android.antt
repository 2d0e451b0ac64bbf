-- ===== src/Examples/Android.antt =====
-- The I/O of the Android version on the archive of one file.
use tarfs.Base.{ℕ, ◌≡◌, false, some, [], ◌∷◌, arith}
use tarfs.Manager.{Block, contents}
use tarfs.Maker.{Maker, ok, pure, and_then, rollback}
use tarfs.Maker
use tarfs.Android.{read_block, write_block}
use tarfs.Android.Transfers.{read_block_agrees, write_block_agrees}
use tarfs.Android.Parser.{get_file_io}
use tarfs.Android.Parsing.{Follows, get_file_io-Follows}
use tarfs.Maker.Parser.{get_file}
use tarfs.Examples.Mkfs.{one_file}
use tarfs.Examples.{start}
use tarfs.Maker.Main.{new_maker}

-- Four blocks on a device of 1000
abbrev opened : Maker
opened = new_maker start.world 0 false

abbrev blank : Block
blank = contents []

abbrev enospc : ℕ
enospc = 28

read_block_agrees_example :
    read_block 0 3 opened ≡ and_then (tarfs.Maker.read_block 3 opened) λ b. pure (some b)
read_block_agrees_example = read_block_agrees 3 opened (omega arith)

write_block_agrees_example :
    write_block enospc 0 (blank ∷ blank ∷ []) 4 opened
    ≡ tarfs.Maker.write_block (blank ∷ blank ∷ []) 4 opened
write_block_agrees_example =
    write_block_agrees enospc (blank ∷ blank ∷ []) 4 opened (omega arith) (omega arith)

get_file_io-Follows_example : Follows (get_file_io 0 one_file 0) (get_file one_file 0)
get_file_io-Follows_example = get_file_io-Follows one_file 0

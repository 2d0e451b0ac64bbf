-- ===== src/Examples/Run.antt =====
-- Both versions of mkfs on the archive of one file: they end.
use tarfs.Base.{Bool, true, false}
use tarfs.Examples.{start}
use tarfs.Examples.Mkfs.{one_file}
use tarfs.Manager.{Manager, Run, ok}
use tarfs.Maker.Main.{new_maker}
use tarfs.Maker.Archive.Main as Kept
use tarfs.Meta
use tarfs.Manager
use tarfs.Alloc
use tarfs.Extent
use tarfs.Header
use tarfs.Inode
use tarfs.Directory
use tarfs.Mkfs
use tarfs.Maker
use tarfs.Maker.Space as MakerSpace
use tarfs.Maker.Files as MakerFiles
use tarfs.Maker.Extents as MakerExtents
use tarfs.Maker.Factory as MakerFactory
use tarfs.Maker.Dir as MakerDir
use tarfs.Maker.Parser as MakerParser
use tarfs.Maker.Main as MakerMain

-- The manager at the end, if the run returns 0
abbrev returned : Run (Unit {0}) → Bool
returned (ok u m) = true
returned _ = false

abbrev manager : Run (Unit {0}) → Manager
manager (ok u m) = m
manager _ = start

abbrev cxx_returned : tarfs.Maker.Run (Unit {0}) → Bool
cxx_returned (tarfs.Maker.ok u s) = true
cxx_returned _ = false

abbrev maker : tarfs.Maker.Run (Unit {0}) → tarfs.Maker.Maker
maker (tarfs.Maker.ok u s) = s
maker _ = new_maker one_file 0 false

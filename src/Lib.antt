-- ===== src/Lib.antt =====
-- tarfs makes a tar archive mountable: mkfs appends metadata blocks behind the archive (inodes,
-- directories, extents and a superblock, all of 512 bytes), and a kernel module reads the files of the
-- mounted archive, whose data stay where tar has put them.
--
-- The parts, and the files that model them:
--   Base       names of the libraries, Boolean tests on numbers, lists
--   Meta       include/tarfs_meta.h: the structures on the device, the constants and size macros
--   Manager    cmd/tarfs_common.h and the I/O of cmd/tarfs_common.c: mkfs_manager, writeData,
--              readData and do_rollback
--   Alloc      cmd/tarfs_common.c: _allocData and allocData, the lists of free blocks
--   Extent     cmd/tarfs_common.c: insertDataExtent and getDataBlock
--   Header     cmd/tarfs_common.c: getval8 and getFtype, the fields of a tar header
--   Inode      cmd/tarfs_common.c: allocDinodeData, allocDinode, allocFreeDinode, getDinode,
--              setNewDirEntry and setFirstDirData
--   Directory  cmd/tarfs_common.c: tarfs_lookup and tarfs_create
--   Mkfs       cmd/mkfs_tar.c: getph, getFname, mkFilePath, parse_tar, init_mkfs and main
--   Knl        knl/tarfs_common.c and knl/tarfs_common_lnx.c: tarfs_getDataBlock over the buffer cache;
--              Knl/Dir and Knl/Readdir knl/dir.c, and the loop of knl/namei.c; Knl/Inode knl/inode.c and
--              the end of knl/namei.c; Knl/Super knl/super.c
--   Check      cmd/checkTarfs.c
--   Mount      cmd/tarfsmount.c
--   Maker      the mkfs in C++. cmd_c++/tarfs.h and fsmaker.cc: FsMaker::readBlock, writeBlock and
--              rollback; Maker/Space space.cc; Maker/Files and Maker/Extents file.cc and inode.cc;
--              Maker/Factory inode_factory.cc; Maker/Dir dir.cc; Maker/Parser parser.cc; Maker/Main the
--              rest of fsmaker.cc, and mkfs_tarfs.cc; Maker/Reader fsreader.cc and the tools over it:
--              tarfsmount.cc, tarfscheck.cc and detachtarfs.cc
--   Android    Android/include/tarfs.h: the macro TARFS_IO, and the readBlock and writeBlock of
--              Android/cmd/lib/fsmaker.cpp over it; Android/Parser Parser::get of
--              Android/cmd/lib/parser.cpp
--   Examples   the theorems at concrete inputs
-- Proofs stand in the child modules: Extent/Read, Extent/Insert, Alloc/Refine and so on.
--
-- mkfs. The state is `Manager`, passed on by the monad `M`; a call ends with a value, an error, the
-- `exit(1)` of do_rollback, or undefined behaviour (`fault`). mkfs calls tarfs_create for each component
-- of a path; that searches the parent with tarfs_lookup, and makes an inode with allocDinode and an
-- entry; blocks come from allocData, and insertDataExtent enters them into an inode.
--
-- A block of the device holds the struct that was last written to it, and reading it as another struct is
-- `fault`, where the source goes on with the bytes: so the model ends where mkfs takes a regular file for a
-- directory and reads its data as entries, and what is said of the archive is said of runs that come to their
-- end in the model. (The C++ parser reads a block of data as a header.) Further, block numbers stand for byte offsets, and the file is a whole number of blocks. The device
-- has room for `capacity` blocks, past which a pwrite is short and stores what fits, and `malloc` fails past `memory`. An
-- incore inode is passed and returned by value, and where the code is given the manager's own inode its
-- field is updated. Numbers of 64 bits wrap where the code adds them (`add64`).
--
-- The kernel module. `Device` is sb_bread of the mounted device and `Icache` is iget_locked; both are
-- parameters, as are the values of DT_REG and its like and the callback of readdir. `Io` is tarfs_io_t,
-- with the number of buffers that are held.
--
-- The mkfs in C++. The state is `Maker`: an FsMaker with its space managers, and the static members of
-- InodeFactory. It is a second design of the same program, with one list of free blocks in each space
-- manager, and an inode that is written when it is synced. A member that no constructor sets has an
-- arbitrary value (`unset`), and the names of a path are values, where the source keeps pointers to a
-- buffer. Its util.cc repeats getval8, getFtype and getCurrentTime of the C version, whose models serve for
-- both.
--
-- The tools of the C version. checkTarfs prints the entries of a directory, and its model returns them;
-- tarfsmount returns what it hands to mount(2). Both read the image as mkfs does. Those of the C++ version
-- open the image with an FsReader, which is a `Maker` that has nothing to truncate.
--
-- Fuel. A walk over indirect blocks has di_nExtents rounds, which counts the indirect blocks and more.
-- A loop over a directory has a round for each byte of it, and an entry takes at least one. mkFilePath
-- has a round for each byte of the path and its terminator, as parsePath has, and parse_tar and the main
-- of the C++ version one for each block of the file.
--
-- The Android version. What lseek(2), read(2) and write(2) return is `Calls`, and what an earlier call has
-- left in `errno` an argument; a read or a write that moves any bytes leaves it alone, and so does a read at
-- the end of the file.
--
-- Not modelled: what the bytes of one struct are as another; the length of mkfs's buffers for a path and a
-- name; the opening of the files and the messages; mount(2) and the table of mounts; the
-- registration of the kernel module and the release of its memory; the rest of the port for Android
-- (Android), whose commands are those of cmd_c++ and whose kernel module is that of knl for an older
-- kernel, and its reader of a ramdisk.
mod Base
pub mod Meta
pub mod Manager
pub mod Alloc
pub mod Extent
pub mod Header
pub mod Inode
pub mod Directory
pub mod Mkfs
pub mod Knl
pub mod Android
pub mod Maker
pub mod Check
pub mod Mount
mod Examples

-- ===== src/Fs.antt =====
-- The file server (fs/fs.c): the blocks of the disk and their cache, the block map of a file, and
-- directories.
pub mod Disk
pub mod Blocks
pub mod Dirs

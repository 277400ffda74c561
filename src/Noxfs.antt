-- ===== src/Noxfs.antt =====
-- NoxFS, src/fs/noxfs/noxfs.c and noxfs.h: an inode file system over the blocks of the buffer cache.
-- The state has the blocks as the cache shows them: bread gives a block's bytes and bwrite keeps them.
-- The file system holds at most three of the cache's sixteen buffers at once, so that bread never
-- returns NULL, and the direct reads from the drive behind a NULL are left out, with the errors of
-- the drive, which bread does not report either.
pub mod Layout
pub mod Alloc
pub mod Blocks
pub mod Dir
pub mod Cached
pub mod Names
mod Examples

-- ===== src/Disk.antt =====
-- demo/demo-fatfs/src/backend: disk images with a page cache.
pub mod Pages
pub mod Io
pub mod Cached
pub mod Count
pub mod Files
pub mod Cover
pub mod Below
pub mod View
pub mod Rounds
pub mod Reads
pub mod Stores
pub mod Written
pub mod Writes
pub mod Invariant
pub mod Upheld
pub mod WriteUpheld
pub mod FlushUpheld
pub mod Sessions
pub mod Transparent
pub mod Flushes

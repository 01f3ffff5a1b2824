-- ===== src/Fs.antt =====
-- kernel/fs/fs.c and include/os/fs.h: the file system on the SD card.
pub mod Layout
pub mod Paths
pub mod Names
pub mod Lookup
pub mod Walk
pub mod Setup
pub mod Format
pub mod Directory
pub mod Files
pub mod Read
pub mod Write
pub mod Remove
pub mod Parents

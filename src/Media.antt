-- ===== src/Media.antt =====
-- internal/media: the rescue media, a tree of files on an ISO 9660 or FAT32 image.
pub mod Tree
pub mod Sizes
pub mod Dirs
mod Tests

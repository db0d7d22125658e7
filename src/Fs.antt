-- ===== src/Fs.antt =====
-- src/fs and src/disk: paths, disks and their streams, files, and the FAT16 filesystem.
pub mod PathParser
pub mod DiskStream
pub mod File
pub mod Fat16

-- ===== src/Fs/Fat16.antt =====
-- fs/fat/fat16.c: the driver of FAT16 over the disk streams. A packed struct read from the disk is
-- the list of its bytes; an `int` that may be negative is its 32 bits.
pub mod Private
pub mod Streams
pub mod Clusters
pub mod Descriptor
pub mod Names
pub mod Directory
pub mod Lookup
pub mod Resolve

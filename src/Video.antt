-- ===== src/Video.antt =====
-- src/video: rectangles of pixels, those that are published, and the screen of a process.
pub mod Rectangle
pub mod Published
pub mod Screen
pub mod Font
pub mod Terminal
mod Tests

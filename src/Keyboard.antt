-- ===== src/Keyboard.antt =====
-- src/keyboard: the key buffer of a process, the special keys, the listeners and the classic driver.
pub mod Buffer
pub mod Queue
pub mod Special
pub mod Listener
pub mod Chain
pub mod Classic
pub mod Interrupt
pub mod Press
mod Tests

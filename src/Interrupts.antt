-- ===== src/Interrupts.antt =====
-- src/gdt and src/idt: the tables that the processor reads, and the tables of handlers and of system
-- commands. A function is its address, and no function is 0.
pub mod Gdt
pub mod Idt
pub mod Commands
mod Tests

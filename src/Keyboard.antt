-- ===== src/Keyboard.antt =====
-- keyboard.c: the ring of pending keys and the scan code decoder of the keyboard interrupt.
pub mod Keys
pub mod Scancodes
pub mod Fifo
pub mod Queue
pub mod Decoder
mod Tests

-- ===== src/Pcnet32.antt =====
-- pcnet32.c: the driver of the PCnet card.
pub mod Registers
pub mod Ring
pub mod Work
pub mod Probe
mod Tests
use frog_os.Base.{ℕ}

-- The part of `pcnet32_dev` that the rings need; `rdes` and `tdes` are the addresses of the receive
-- and transmit descriptors, of 16 bytes each, and the buffers have 1600 bytes each.
pub record Card : Type 0 where
  pub ioaddr : ℕ
  pub interrupt : ℕ
  pub rx_buffer_ptr : ℕ
  pub tx_buffer_ptr : ℕ
  pub rx_buffer_count : ℕ
  pub tx_buffer_count : ℕ
  pub rx_buffers : ℕ
  pub tx_buffers : ℕ
  pub rdes : ℕ
  pub tdes : ℕ
  pub mii : ℕ
  pub fdx : ℕ

abbrev pub pcnet32_buffer_size : ℕ
pcnet32_buffer_size = 1600

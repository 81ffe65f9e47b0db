-- ===== src/Network/Host.antt =====
-- include/net.h: one interface, the memory with the frame buffers, and the state of the card's
-- driver; ether.c: handing a frame to the driver.
use frog_os.Base.{ℕ, List, u16}
use frog_os.Memory.{Mem}
use frog_os.Network.Pool.{Net}

-- `net_dev`, without its two function pointers, which are parameters where they are called.
pub record Device : Type 0 where
  pub dev_no : ℕ
  pub hw_addr : List ℕ
  pub ipv4_addr : ℕ
  pub ipv4_netmask : ℕ
  pub needs_work : ℕ
  pub priv : ℕ
  pub rx_packets : ℕ
  pub tx_packets : ℕ

pub record Host (Card : Type 0) : Type 0 where
  pub net : Net
  pub dev : Device
  pub card : Card

-- `stuck` is a walk of `alloc` or a fold of `ip_cksum` that has not ended.
pub data Handled (Card : Type 0) : Type 0 where
  handled : Host Card → Handled Card
  stuck : Handled Card

abbrev pub memory : {Card : Type 0} → Host Card → Mem
memory h = h.net.store.bytes

-- The pool after `net_alloc`, with the memory that a frame is written to.
abbrev pub with_bytes : Net → Mem → Net
with_bytes n m = record {
  buffers = n.buffers;
  store = record { high_mem = n.store.high_mem; bytes = m };
}

-- The driver's `tx_packet` takes a `uint16_t`.
abbrev pub ether_sendframe :
    {Card : Type 0} → (ℕ → ℕ → Host Card → ℕ × Host Card) → ℕ → ℕ → Host Card → ℕ × Host Card
ether_sendframe tx_packet frame len h = tx_packet frame (u16 len) h

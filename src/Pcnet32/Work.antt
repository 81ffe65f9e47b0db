-- ===== src/Pcnet32/Work.antt =====
-- The card's interrupt work with the network code that it calls: the frames received go through
-- ether_process_frame to arp.c and icmp.c, whose answers come back to tx_packet.
pub mod Send
pub mod Answer
pub mod Process
pub mod Done
use frog_os.Base.{ℕ, ◌+◌, ◌*◌, ◌^◌, ◌≤◌, ◌<◌, ◌≡◌, ◌⊎◌, List, length}
use frog_os.Network.Host.{Host, Handled, handled, memory}
use frog_os.Network.Pool.Area.{IsNetBeside}
use frog_os.Pcnet32.{Card}
use frog_os.Pcnet32.Ring.Receive.{IsRing, IsInRing}

-- Both rings and their buffers, apart and within one area of the memory.
pub record IsPlaced (lo hi : ℕ) (c : Card) : Type 0 where
  pub ring : IsRing c
  pub tx_count : c.tx_buffer_count < 2 ^ 16
  pub rdes_in : (lo ≤ c.rdes) × (c.rdes + 16 * c.rx_buffer_count ≤ hi)
  pub rx_in : (lo ≤ c.rx_buffers) × (c.rx_buffers + 1600 * c.rx_buffer_count ≤ hi)
  pub tdes_in : (lo ≤ c.tdes) × (c.tdes + 16 * c.tx_buffer_count ≤ hi)
  pub tx_in : (lo ≤ c.tx_buffers) × (c.tx_buffers + 1600 * c.tx_buffer_count ≤ hi)
  pub tx_apart :
      (c.tdes + 16 * c.tx_buffer_count ≤ c.tx_buffers)
      ⊎ (c.tx_buffers + 1600 * c.tx_buffer_count ≤ c.tdes)
  pub tdes_apart :
      (c.tdes + 16 * c.tx_buffer_count ≤ c.rdes) ⊎ (c.rdes + 16 * c.rx_buffer_count ≤ c.tdes)
  pub buffers_apart :
      (c.tx_buffers + 1600 * c.tx_buffer_count ≤ c.rdes)
      ⊎ (c.rdes + 16 * c.rx_buffer_count ≤ c.tx_buffers)

-- A host whose driver is the card `c` but for the place in the transmit ring, and whose frame buffers
-- are in order beside the rings.
pub record IsHost (limit lo hi : ℕ) (c : Card) (held free : List ℕ) (h : Host Card) : Type 0 where
  pub net : IsNetBeside limit lo hi h.net held free
  pub place : ℕ
  pub place_in : place < c.tx_buffer_count
  pub card : h.card ≡ record c { tx_buffer_ptr = place }
  pub address : length h.dev.hw_addr ≡ 6

abbrev pub IsRunning : ℕ → ℕ → ℕ → Card → Host Card → Type 0
IsRunning limit lo hi c h = (held : List ℕ) × (free : List ℕ) × IsHost limit lo hi c held free h

-- Handling has returned, in a host that runs on; no descriptor of the receive ring has changed.
abbrev pub Returns : ℕ → ℕ → ℕ → Card → Host Card → Handled Card → Type 0
Returns limit lo hi c h o =
    (t : Host Card) × (o ≡ handled t)
    × IsRunning limit lo hi c t
    × (t.dev.rx_packets ≡ h.dev.rx_packets)
    × ((x : ℕ) → IsInRing c x → memory t x ≡ memory h x)

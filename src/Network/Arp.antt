-- ===== src/Network/Arp.antt =====
-- arp.c: the answer to a request for the interface's address. An `arp_packet` has its fields at the
-- offsets 0 htype, 2 ptype, 4 hlen, 5 plen, 6 oper, 8 sha, 14 spa, 18 tha and 24 tpa.
pub mod Reply
pub mod Writes
use frog_os.Base.{ℕ, ◌+◌, ◌==◌, ◌&&◌, not, if◌then◌else◌, Bool, List}
use frog_os.Memory.{Mem, load16, load32, store8, store16, store32, memcpy, copy_in}
use frog_os.Network.Checksum.{htons}
use frog_os.Network.Pool.{buffer, net_alloc}
use frog_os.Network.Pool
use frog_os.Network.Host.{
  Device, Host, Handled, handled, stuck, memory, with_bytes, ether_sendframe,
}

-- The condition of the early return, negated, and the second condition.
unfoldable pub is_ethernet_ipv4 : Mem → ℕ → Bool
is_ethernet_ipv4 m packet =
    (htons (load16 m packet) == 1)
    && (htons (load16 m (packet + 2)) == 0x0800)
    && (m (packet + 4) == 6)
    && (m (packet + 5) == 4)

unfoldable pub is_request_for : ℕ → Mem → ℕ → Bool
is_request_for ipv4_addr m packet =
    (htons (load16 m (packet + 6)) == 1) && (load32 m (packet + 24) == ipv4_addr)

-- The writes to the frame: the Ethernet header and the ARP packet behind it.
unfoldable pub write_reply : List ℕ → ℕ → ℕ → ℕ → Mem → Mem
write_reply hw_addr src packet frame m =
    let m₁ = memcpy m frame src 6 in
    let m₂ = copy_in m₁ (frame + 6) hw_addr in
    let m₃ = store16 m₂ (frame + 12) (htons 0x0806) in
    let arp = frame + 14 in
    let m₄ = store16 m₃ arp (htons 1) in
    let m₅ = store16 m₄ (arp + 2) (htons 0x0800) in
    let m₆ = store8 m₅ (arp + 4) 6 in
    let m₇ = store8 m₆ (arp + 5) 4 in
    let m₈ = store16 m₇ (arp + 6) (htons 2) in
    let m₉ = copy_in m₈ (arp + 8) hw_addr in
    let n₁ = store32 m₉ (arp + 14) (load32 m₉ (packet + 24)) in
    let n₂ = memcpy n₁ (arp + 18) src 6 in store32 n₂ (arp + 24) (load32 n₂ (packet + 14))

module _ (Card : Type 0) (tx_packet : ℕ → ℕ → Host Card → ℕ × Host Card) where
  unfoldable pub arp_process_packet : ℕ → ℕ → Host Card → Handled Card
  unfolding is_ethernet_ipv4 is_request_for write_reply
  arp_process_packet src packet h =
      if not (is_ethernet_ipv4 (memory h) packet)
      then handled h
      else if is_request_for h.dev.ipv4_addr (memory h) packet
      then elim (net_alloc h.net) [
        | Pool.stuck ↦ stuck
        | buffer frame n ↦
            let m = write_reply h.dev.hw_addr src packet frame n.store.bytes in
            if frame == 0
            then handled (record h { net = n })
            else handled
                (ether_sendframe tx_packet frame (14 + 28) (record h { net = with_bytes n m })).1
      ]
      else handled h

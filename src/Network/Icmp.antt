-- ===== src/Network/Icmp.antt =====
-- icmp.c: the answer to an echo request. An `ip_packet` has its fields at the offsets 0 ihl and
-- version, 1 tos, 2 tot_len, 4 id, 6 frag_off, 8 ttl, 9 protocol, 10 check, 12 src, 16 dest and 20
-- payload, an `icmp_packet` 0 type, 1 code, 2 cksum, 4 data. A bit field is written by a read and a
-- write of its byte.
pub mod Header
pub mod Cksum
pub mod Echo
pub mod Writes
use frog_os.Base.{ℕ, ◌+◌, ◌==◌, bit_and, bit_or, u16, if◌then◌else◌, Option, none, some}
use frog_os.Memory.{Mem, load16, load32, store8, store16, store32, memcpy}
use frog_os.Network.Checksum.{htons, ip_cksum}
use frog_os.Network.Pool.{buffer, net_alloc}
use frog_os.Network.Pool
use frog_os.Network.Host.{Host, Handled, handled, stuck, memory, with_bytes, ether_sendframe}

-- The Ethernet header and the IPv4 header's fields up to the protocol.
unfoldable pub write_fixed : ℕ → ℕ → ℕ → ℕ → Mem → Mem
write_fixed frame ip len new m =
    let m₁ = memcpy m new (frame + 6) 6 in
    let m₂ = memcpy m₁ (new + 6) frame 6 in
    let m₃ = store16 m₂ (new + 12) (htons 0x0800) in
    let new_ip = new + 14 in
    let m₄ = store8 m₃ new_ip (bit_or (bit_and (m₃ new_ip) 0xf0) 5) in
    let m₅ = store8 m₄ new_ip (bit_or (bit_and (m₄ new_ip) 0x0f) 0x40) in
    let m₆ = store16 m₅ (new_ip + 2) (htons (u16 (20 + len))) in
    let m₇ = store16 m₆ (new_ip + 4) (load16 m₆ (ip + 4)) in
    let m₈ = store8 m₇ (new_ip + 8) 64 in store8 m₈ (new_ip + 9) 1

-- The Ethernet header and the IPv4 header, but for its checksum.
unfoldable pub write_headers : ℕ → ℕ → ℕ → ℕ → Mem → Mem
unfolding write_fixed
write_headers frame ip len new m =
    let m₉ = write_fixed frame ip len new m in
    let n₁ = store32 m₉ (new + 14 + 12) (load32 m₉ (ip + 16)) in
    store32 n₁ (new + 14 + 16) (load32 n₁ (ip + 12))

-- The ICMP packet, with its checksum at 0 and its type the reply's.
unfoldable pub write_packet : ℕ → ℕ → ℕ → Mem → Mem
write_packet packet len new m =
    let new_packet = new + 34 in
    let m₁ = memcpy m new_packet packet len in store8 (store16 m₁ (new_packet + 2) 0) new_packet 0

-- Each checksum is computed over its bytes and stored among them.
unfoldable pub store_cksum : ℕ → ℕ → ℕ → Mem → Option Mem
store_cksum buff len field m = elim (ip_cksum 0 m buff len) [
  | none ↦ none
  | some c ↦ some (store16 m field c)
]

unfoldable pub write_echo : ℕ → ℕ → ℕ → ℕ → ℕ → Mem → Option Mem
unfolding write_headers write_packet store_cksum
write_echo frame ip packet len new m =
    elim (store_cksum (new + 14) 20 (new + 24) (write_headers frame ip len new m)) [
      | none ↦ none
      | some n ↦ store_cksum (new + 34) len (new + 36) (write_packet packet len new n)
    ]

module _ (Card : Type 0) (tx_packet : ℕ → ℕ → Host Card → ℕ × Host Card) where
  unfoldable pub icmp_process_packet : ℕ → ℕ → ℕ → ℕ → Host Card → Handled Card
  unfolding write_echo
  icmp_process_packet frame ip packet len h =
      if memory h packet == 8
      then elim (net_alloc h.net) [
        | Pool.stuck ↦ stuck
        | buffer new n ↦
            let written = write_echo frame ip packet len new n.store.bytes in
            if new == 0 then handled (record h { net = n }) else elim written [
              | none ↦ stuck
              | some m ↦
                  handled
                    (ether_sendframe tx_packet new (len + 20 + 14)
                      (record h { net = with_bytes n m })).1
            ]
      ]
      else handled h

-- ===== src/Network/Ether.antt =====
-- ether.c and ipv4.c: the way of a frame to the protocol that it is for.
use frog_os.Base.{ℕ, ◌+◌, ◌*◌, ◌==◌, ◌||◌, ltb, bit_and, sub32, not, Bool, if◌then◌else◌, ◌>>>◌}
use frog_os.Base.{none, some}
use frog_os.Memory.{Mem, load16}
use frog_os.Network.Checksum.{htons, ip_cksum}
use frog_os.Network.Host.{Host, Handled, handled, stuck, memory}
use frog_os.Network.Arp.{arp_process_packet}
use frog_os.Network.Icmp.{icmp_process_packet}

abbrev pub ihl : Mem → ℕ → ℕ
ihl m packet = bit_and (m packet) 0x0f

abbrev pub version : Mem → ℕ → ℕ
version m packet = m packet >>> 4

-- The first three conditions of the early return; the fourth one is the checksum's.
unfoldable pub is_malformed : Mem → ℕ → ℕ → Bool
is_malformed m packet len =
    not (version m packet == 4) || ltb (ihl m packet) 5 || ltb len (ihl m packet * 4)

module _ (Card : Type 0) (tx_packet : ℕ → ℕ → Host Card → ℕ × Host Card) where
  unfoldable pub ipv4_process_packet : ℕ → ℕ → ℕ → Host Card → Handled Card
  unfolding is_malformed
  ipv4_process_packet frame packet len h =
      let size = 4 * ihl (memory h) packet in
      let echoed =
        icmp_process_packet Card tx_packet frame packet (packet + 20) (sub32 len size) h in
      if is_malformed (memory h) packet len
      then handled h
      else elim (ip_cksum 0 (memory h) packet size) [
        | none ↦ stuck
        | some check ↦
            if not (check == 0)
            then handled h
            else if memory h (packet + 9) == 1
            then echoed
            else handled h
      ]

  -- The kinds 0x0842 (which is printed), 0x86dd and all others come to nothing. The length without
  -- header and trailer is an `int` that is given to a function that takes a `size_t`.
  unfoldable pub ether_process_frame : ℕ → ℕ → Host Card → Handled Card
  unfolding ipv4_process_packet
  ether_process_frame frame len h =
      let kind = htons (load16 (memory h) (frame + 12)) in
      if ltb kind 1536
      then handled h
      else if kind == 0x0800
      then ipv4_process_packet frame (frame + 14) (sub32 len 18) h
      else if kind == 0x0806
      then arp_process_packet Card tx_packet (frame + 6) (frame + 14) h
      else handled h

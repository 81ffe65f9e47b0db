-- ===== src/Pcnet32/Work/Process.antt =====
-- The way of a frame from the receive ring through ether.c and ipv4.c to its answer, and back.
use frog_os.Base.{ℕ, ◌+◌, ◌*◌, ◌≤◌, ◌≡◌, refl, arith, sub32}
use frog_os.Base.{inl, inr, List, false, Bool-cases, ◌==◌, ltb}
use frog_os.Network.Checksum.{htons}
use frog_os.Memory.{load16}
use frog_os.Network.Checksum.Laws.{ip_cksum_lem}
use frog_os.Network.Pool.Area.{area-IsNetBeside}
use frog_os.Network.Host.{Host, handled, memory}
use frog_os.Network.Ether.{ihl, is_malformed, ipv4_process_packet, ether_process_frame}
use frog_os.Pcnet32.{Card}
use frog_os.Pcnet32.Ring.{tx_packet}
use frog_os.Pcnet32.Ring.Receive.{Handles}
use frog_os.Pcnet32.Work.{IsPlaced, IsHost, IsRunning, Returns}
use frog_os.Pcnet32.Work.Answer.{arp_process_packet-Returns, icmp_process_packet-Returns}

-- A header that ends within the packet.
formed-size :
    (h : Host Card) (packet len : ℕ)
    → is_malformed (memory h) packet len ≡ false
    → (5 ≤ ihl (memory h) packet) × (ihl (memory h) packet * 4 ≤ len)
unfolding is_malformed
formed-size h packet len e = ground arith

module _ (limit lo hi : ℕ) (c : Card) (p : IsPlaced lo hi c) (held free : List ℕ) (h : Host Card)
    (v : IsHost limit lo hi c held free h) where
  dropped : Returns limit lo hi c h (handled h)
  dropped = (h, refl, (held, free, v), refl, λ x at. refl)

  ipv4_process_packet-Returns :
      (frame packet len : ℕ)
      → len ≤ 1582
      → Returns limit lo hi c h (ipv4_process_packet Card tx_packet frame packet len h)
  unfolding ipv4_process_packet
  ipv4_process_packet-Returns frame packet len small =
      elim (Bool-cases (is_malformed (memory h) packet len)) [
        | inl bad ↦ rw bad dropped
        | inr formed ↦
            let size = 4 * ihl (memory h) packet in
            let (five, inside) = formed-size h packet len formed in
            let (sum, q, e, _, _, _, _) =
              ip_cksum_lem (memory h) packet size v.net.bytes (omega arith) in
            elim (Bool-cases (sum == 0)) [
              | inr wrong ↦ rw (formed, e, wrong) dropped
              | inl right ↦ elim (Bool-cases (memory h (packet + 9) == 1)) [
                | inr other ↦ rw (formed, e, right, other) dropped
                | inl icmp ↦
                    rw (formed, e, right, icmp)
                      (icmp_process_packet-Returns limit lo hi c p frame packet (packet + 20)
                        (sub32 len size) held free h v (omega arith))
              ]
            ]
      ]

  -- A frame with its header and its checksum.
  ether_process_frame-Returns :
      (frame n : ℕ)
      → 18 ≤ n
      → n ≤ 1600
      → Returns limit lo hi c h (ether_process_frame Card tx_packet frame n h)
  unfolding ether_process_frame
  ether_process_frame-Returns frame n enough small =
      let kind = htons (load16 (memory h) (frame + 12)) in
      elim (Bool-cases (ltb kind 1536)) [
        | inl length ↦ rw length dropped
        | inr typed ↦ elim (Bool-cases (kind == 0x0800)) [
          | inl ipv4 ↦
              rw (typed, ipv4)
                (ipv4_process_packet-Returns frame (frame + 14) (sub32 n 18) (omega arith))
          | inr other ↦ elim (Bool-cases (kind == 0x0806)) [
            | inl arp ↦
                rw (typed, other, arp)
                  (arp_process_packet-Returns limit lo hi c p (frame + 6) (frame + 14) held free h
                    v)
            | inr unknown ↦ rw (typed, other, unknown) dropped
          ]
        ]
      ]

-- What the receive loop relies on holds of the code that handles a frame.
pub ether_process_frame-Handles :
    (limit lo hi : ℕ) (c : Card)
    → IsPlaced lo hi c
    → Handles c (ether_process_frame Card tx_packet) (IsRunning limit lo hi c)
ether_process_frame-Handles limit lo hi c p = record {
  bytes = λ h (held, free, v). v.net.bytes;
  card = λ h (held, free, v). (v.place, v.card);
  handles = λ a n h (held, free, v) enough small.
      ether_process_frame-Returns limit lo hi c p held free h v a n enough small;
  counts = λ h n (held, free, v). (
    held,
    free,
    record {
      net = v.net;
      place = v.place;
      place_in = v.place_in;
      card = v.card;
      address = v.address;
    },
  );
  clears = λ h m (held, free, v) b same. (
    held,
    free,
    record {
      net =
          area-IsNetBeside limit lo hi h.net m held free v.net b
            (λ x off. same x (omega (arith, p.rx_in)) (omega (arith, p.rdes_in)));
      place = v.place;
      place_in = v.place_in;
      card = v.card;
      address = v.address;
    },
  );
}

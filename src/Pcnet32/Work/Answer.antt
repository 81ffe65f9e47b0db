-- ===== src/Pcnet32/Work/Answer.antt =====
-- An answer to a frame: a buffer is taken from the pool, written and handed to the card.
use frog_os.Base.{ℕ, ◌+◌, ◌≤◌, ◌<◌, ◌≡◌, refl, ◌∙◌, arith, inl, inr, u16}
use frog_os.Base.{List, ◌∷◌, false, Bool-cases, ◌==◌}
use frog_os.Memory.{Mem}
use frog_os.Memory.Laws.{IsBytes}
use frog_os.Network.Pool.{Net}
use frog_os.Network.Pool.Area.{IsNetBeside, DiffersIn, net_alloc-IsNetBeside, held-IsNetBeside}
use frog_os.Network.Host.{Host, handled, memory, with_bytes}
use frog_os.Network.Arp.{is_ethernet_ipv4, is_request_for, arp_process_packet}
use frog_os.Network.Arp.Writes.{write_reply-outside, write_reply-IsBytes}
use frog_os.Network.Icmp.{icmp_process_packet}
use frog_os.Network.Icmp.Writes.{write_echo-some}
use frog_os.Pcnet32.{Card}
use frog_os.Pcnet32.Ring.{tx_packet}
use frog_os.Pcnet32.Work.{IsPlaced, IsHost, Returns}
use frog_os.Pcnet32.Work.Send.{tx_packet-Returns}

module _ (limit lo hi : ℕ) (c : Card) (p : IsPlaced lo hi c) where
  with_net-IsHost :
      (held free held' free' : List ℕ) (h : Host Card) (n : Net)
      → IsHost limit lo hi c held free h
      → IsNetBeside limit lo hi n held' free'
      → IsHost limit lo hi c held' free' (record h { net = n })
  with_net-IsHost held free held' free' h n v w = record {
    net = w;
    place = v.place;
    place_in = v.place_in;
    card = v.card;
    address = v.address;
  }

  -- No buffer was left, and the pool may have grown.
  unanswered-Returns :
      (held free : List ℕ) (h : Host Card) (n : Net)
      → IsHost limit lo hi c held free h
      → IsNetBeside limit lo hi n held free
      → ((x : ℕ) → x < hi → n.store.bytes x ≡ memory h x)
      → Returns limit lo hi c h (handled (record h { net = n }))
  unanswered-Returns held free h n v w same = (
    record h { net = n },
    refl,
    (held, free, with_net-IsHost held free held free h n v w),
    refl,
    λ x inside. same x (omega (arith, p.rdes_in)),
  )

  -- The buffer that was taken is written, and sent.
  answered-Returns :
      (a len : ℕ) (held free free' : List ℕ) (h : Host Card) (n : Net) (m : Mem)
      → IsHost limit lo hi c held free h
      → IsNetBeside limit lo hi n (a ∷ held) free'
      → ((x : ℕ) → x < hi → n.store.bytes x ≡ memory h x)
      → IsBytes m
      → DiffersIn a (a + 2000) n.store.bytes m
      → 0 < len
      → len ≤ 1600
      → Returns limit lo hi c h (handled (tx_packet a len (record h { net = with_bytes n m })).1)
  answered-Returns a len held free free' h n m v w same b inside pos fits =
      let (off, rest) = w.off_held in
      let g = record h { net = with_bytes n m } in
      let held_m = held-IsNetBeside limit lo hi a n m held free' w b inside in
      let ready = with_net-IsHost held free (a ∷ held) free' h (with_bytes n m) v held_m in
      let (t, e, runs, counted, ring) =
        tx_packet-Returns limit lo hi c p a len held free' g ready pos fits in
      (
        t,
        e,
        runs,
        counted,
        λ x at. ring x at ∙ inside x (omega (arith, p.rdes_in)) ∙ same x (omega (arith, p.rdes_in)),
      )

  pub arp_process_packet-Returns :
      (src packet : ℕ) (held free : List ℕ) (h : Host Card)
      → IsHost limit lo hi c held free h
      → Returns limit lo hi c h (arp_process_packet Card tx_packet src packet h)
  unfolding arp_process_packet
  arp_process_packet-Returns src packet held free h v =
      let (n, same, r) = net_alloc-IsNetBeside limit lo hi h.net held free v.net in
      elim (Bool-cases (is_ethernet_ipv4 (memory h) packet)) [
        | inr e ↦ (h, rw e refl, (held, free, v), refl, λ x at. refl)
        | inl e ↦ elim (Bool-cases (is_request_for h.dev.ipv4_addr (memory h) packet)) [
          | inr q ↦ (h, rw (e, q) refl, (held, free, v), refl, λ x at. refl)
          | inl q ↦ elim r [
            | inl (got, w) ↦ rw (e, q, got) (unanswered-Returns held free h n v w same)
            | inr (a, free', got, pos, w, clear) ↦
                let on : (a == 0) ≡ false = ground arith in
                let hw = h.dev.hw_addr in
                rw (e, q, got, on)
                  (answered-Returns a 42 held free free' h n _ v w same
                    (write_reply-IsBytes hw src packet a n.store.bytes w.bytes)
                    (λ x out.
                      write_reply-outside hw src packet a n.store.bytes x v.address (omega arith))
                    (omega arith) (omega arith))
          ]
        ]
      ]

  pub icmp_process_packet-Returns :
      (frame ip packet len : ℕ) (held free : List ℕ) (h : Host Card)
      → IsHost limit lo hi c held free h
      → len + 34 ≤ 1600
      → Returns limit lo hi c h (icmp_process_packet Card tx_packet frame ip packet len h)
  unfolding icmp_process_packet
  icmp_process_packet-Returns frame ip packet len held free h v fits =
      let (n, same, r) = net_alloc-IsNetBeside limit lo hi h.net held free v.net in
      elim (Bool-cases (memory h packet == 8)) [
        | inr other ↦ (h, rw other refl, (held, free, v), refl, λ x at. refl)
        | inl request ↦ elim r [
          | inl (got, w) ↦ rw (request, got) (unanswered-Returns held free h n v w same)
          | inr (a, free', got, pos, w, clear) ↦
              let on : (a == 0) ≡ false = ground arith in
              let (m, e, b, inside) =
                write_echo-some frame ip packet len a n.store.bytes w.bytes (omega arith) in
              let size : u16 (len + 20 + 14) ≡ len + 34 = omega arith in
              rw (request, got, on, e, size)
                (answered-Returns a (len + 34) held free free' h n m v w same b inside (omega arith)
                  fits)
        ]
      ]

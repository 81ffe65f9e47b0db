-- ===== src/Network/Arp/Reply.antt =====
-- The frame that answers an ARP request, byte by byte.
use frog_os.Base.{ℕ, ◌+◌, ◌<◌, ◌≡◌, ◌⊎◌, refl, arith, true, false, ◌==◌}
use frog_os.Base.{List, [], ◌∷◌, ◌++◌, length, Bool-cases, inl, inr}
use frog_os.Memory.{Mem, copy_in, load16, load32}
use frog_os.Memory.Laws.{IsBytes}
use frog_os.Memory.Bytes.{read_bytes, AllBytes, AllBytes-append, read_bytes-AllBytes, DifferIn}
use frog_os.Memory.Frame.{Wrote, IsAway, copy_in-Wrote, store8-Wrote, store16-Wrote}
use frog_os.Memory.Frame.{store32-Wrote, memcpy-Wrote, Wrote-read}
use frog_os.Network.Checksum.{htons}
use frog_os.Network.Pool.{Net, buffer, net_alloc}
use frog_os.Network.Host.{Host, Handled, handled, memory, with_bytes}
use frog_os.Network.Arp.{is_ethernet_ipv4, is_request_for, write_reply, arp_process_packet}

-- A reply in the layout of RFC 826, in the order of its bytes on the wire: from and about the
-- interface's own addresses, to the six bytes at `src`, which are its destination and its target
-- hardware address. arp.c takes them from the Ethernet header of the request; RFC 826 takes them from
-- the request's sender hardware address, at `packet + 8`.
abbrev pub arp_frame : List ℕ → Mem → ℕ → ℕ → List ℕ
arp_frame hw m src packet =
    read_bytes m src 6
    ++ hw
    ++ 0x08 ∷ 0x06 ∷ []
    ++ 0x00 ∷ 0x01 ∷ []
    ++ 0x08 ∷ 0x00 ∷ []
    ++ 6 ∷ []
    ++ 4 ∷ []
    ++ 0x00 ∷ 0x02 ∷ []
    ++ hw
    ++ read_bytes m (packet + 24) 4
    ++ read_bytes m src 6
    ++ read_bytes m (packet + 14) 4

module _ (hw : List ℕ) (m : Mem) (src packet frame : ℕ) (six : length hw ≡ 6) (b : IsBytes m)
    (src_away : IsAway m frame 42 src 6) (packet_away : IsAway m frame 42 packet 28) where
  write_reply-Wrote :
      Wrote m frame 42 (arp_frame hw m src packet) (write_reply hw src packet frame m)
  unfolding write_reply htons
  write_reply-Wrote =
      let w₀ : Wrote m frame 0 [] m = (unfold copy_in in refl, refl) in
      let w₁ =
        memcpy-Wrote m frame 42 0 _ _ frame w₀ (omega arith) src 6 src_away (omega arith) refl in
      let w₂ = copy_in-Wrote m frame 42 6 _ _ (frame + 6) w₁ refl 6 hw six in
      let w₃ = store16-Wrote m frame 42 12 _ _ (frame + 12) w₂ refl 0x0608 in
      let w₄ = store16-Wrote m frame 42 14 _ _ (frame + 14) w₃ refl 0x0100 in
      let w₅ = store16-Wrote m frame 42 16 _ _ (frame + 14 + 2) w₄ (omega arith) 0x0008 in
      let w₆ = store8-Wrote m frame 42 18 _ _ (frame + 14 + 4) w₅ (omega arith) 6 in
      let w₇ = store8-Wrote m frame 42 19 _ _ (frame + 14 + 5) w₆ (omega arith) 4 in
      let w₈ = store16-Wrote m frame 42 20 _ _ (frame + 14 + 6) w₇ (omega arith) 0x0200 in
      let w₉ = copy_in-Wrote m frame 42 22 _ _ (frame + 14 + 8) w₈ (omega arith) 6 hw six in
      let v₁ =
        store32-Wrote m frame 42 28 _ _ (frame + 14 + 14) w₉ (omega arith) (packet + 24)
          (omega arith) (omega arith) b in
      let v₂ =
        memcpy-Wrote m frame 42 32 _ _ (frame + 14 + 18) v₁ (omega arith) src 6 src_away
          (omega arith) refl in
      store32-Wrote m frame 42 38 _ _ (frame + 14 + 24) v₂ (omega arith) (packet + 14) (omega arith)
        (omega arith) b

  arp_frame-AllBytes : AllBytes hw → AllBytes (arp_frame hw m src packet)
  arp_frame-AllBytes bytes =
      let read = λ (a n : ℕ). read_bytes-AllBytes m a n b in
      let to = read_bytes m src 6 ++ hw in
      let to_bytes : AllBytes to = AllBytes-append (read_bytes m src 6) hw (read src 6) bytes in
      let kind = to ++ 0x08 ∷ 0x06 ∷ [] in
      let kind_bytes : AllBytes kind =
        AllBytes-append to (0x08 ∷ 0x06 ∷ []) to_bytes (omega arith) in
      let hardware = kind ++ 0x00 ∷ 0x01 ∷ [] in
      let hardware_bytes : AllBytes hardware =
        AllBytes-append kind (0x00 ∷ 0x01 ∷ []) kind_bytes (omega arith) in
      let protocol = hardware ++ 0x08 ∷ 0x00 ∷ [] in
      let protocol_bytes : AllBytes protocol =
        AllBytes-append hardware (0x08 ∷ 0x00 ∷ []) hardware_bytes (omega arith) in
      let hlen = protocol ++ 6 ∷ [] in
      let hlen_bytes : AllBytes hlen =
        AllBytes-append protocol (6 ∷ []) protocol_bytes (omega arith) in
      let plen = hlen ++ 4 ∷ [] in
      let plen_bytes : AllBytes plen = AllBytes-append hlen (4 ∷ []) hlen_bytes (omega arith) in
      let oper = plen ++ 0x00 ∷ 0x02 ∷ [] in
      let oper_bytes : AllBytes oper =
        AllBytes-append plen (0x00 ∷ 0x02 ∷ []) plen_bytes (omega arith) in
      let sha = oper ++ hw in
      let sha_bytes : AllBytes sha = AllBytes-append oper hw oper_bytes bytes in
      let spa = sha ++ read_bytes m (packet + 24) 4 in
      let spa_bytes : AllBytes spa =
        AllBytes-append sha (read_bytes m (packet + 24) 4) sha_bytes (read (packet + 24) 4) in
      let tha = spa ++ read_bytes m src 6 in
      let tha_bytes : AllBytes tha =
        AllBytes-append spa (read_bytes m src 6) spa_bytes (read src 6) in
      AllBytes-append tha (read_bytes m (packet + 14) 4) tha_bytes (read (packet + 14) 4)

-- A request of RFC 826 for an IPv4 address, on Ethernet.
abbrev pub IsRequest : ℕ → Mem → ℕ → Type 0
IsRequest ipv4_addr m p =
    (m p ≡ 0)
    × (m (p + 1) ≡ 1)
    × (m (p + 2) ≡ 8)
    × (m (p + 2 + 1) ≡ 0)
    × (m (p + 4) ≡ 6)
    × (m (p + 5) ≡ 4)
    × (m (p + 6) ≡ 0)
    × (m (p + 6 + 1) ≡ 1)
    × (load32 m (p + 24) ≡ ipv4_addr)

IsRequest-true :
    (ip p : ℕ) (m : Mem)
    → IsBytes m
    → (is_ethernet_ipv4 m p ≡ true)
    → (is_request_for ip m p ≡ true)
    → IsRequest ip m p
unfolding is_ethernet_ipv4 is_request_for htons load16
IsRequest-true ip p m b e r =
    ground (arith, b p, b (p + 1), b (p + 2), b (p + 2 + 1), b (p + 6), b (p + 6 + 1))

IsRequest-false :
    (ip p : ℕ) (m : Mem)
    → (is_ethernet_ipv4 m p ≡ false) ⊎ (is_request_for ip m p ≡ false)
    → ¬ (IsRequest ip m p)
unfolding is_ethernet_ipv4 is_request_for htons load16
IsRequest-false ip p m e r = ground arith

-- What the answer comes to: for a request, one frame sent; for any other packet, nothing at all.
abbrev pub Answers :
    (Card : Type 0)
    → (ℕ → ℕ → Host Card → ℕ × Host Card)
    → Host Card
    → ℕ
    → ℕ
    → ℕ
    → Net
    → Handled Card
    → Type 0
Answers Card tx_packet h src packet frame n o =
    (IsRequest h.dev.ipv4_addr (memory h) packet
      × (m' : Mem) × (o ≡ handled (tx_packet frame 42 (record h { net = with_bytes n m' })).1)
      × (read_bytes m' frame 42 ≡ arp_frame h.dev.hw_addr n.store.bytes src packet)
      × DifferIn frame 42 n.store.bytes m')
    ⊎ (¬ (IsRequest h.dev.ipv4_addr (memory h) packet) × (o ≡ handled h))

module _ (Card : Type 0) (tx_packet : ℕ → ℕ → Host Card → ℕ × Host Card) (h : Host Card)
    (src packet frame : ℕ) (n : Net) where
  arp-request :
      is_ethernet_ipv4 (memory h) packet ≡ true
      → is_request_for h.dev.ipv4_addr (memory h) packet ≡ true
      → net_alloc h.net ≡ buffer frame n
      → 0 < frame
      → arp_process_packet Card tx_packet src packet h
        ≡ handled
            (tx_packet frame 42 (record h {
              net = with_bytes n (write_reply h.dev.hw_addr src packet frame n.store.bytes);
            })).1
  unfolding arp_process_packet
  arp-request e r got pos =
      let on : (frame == 0) ≡ false = ground arith in rw (arp_process_packet, e, r, got, on)

  arp-other :
      (is_ethernet_ipv4 (memory h) packet ≡ false)
        ⊎ (is_request_for h.dev.ipv4_addr (memory h) packet ≡ false)
      → arp_process_packet Card tx_packet src packet h ≡ handled h
  unfolding arp_process_packet
  arp-other (inl e) = rw e
  arp-other (inr r) = elim (Bool-cases (is_ethernet_ipv4 (memory h) packet)) [
    | inl e ↦ rw (e, r)
    | inr e ↦ rw e
  ]

  -- With a frame buffer that lies apart from the packet and from the sender's address in the frame
  -- received, an ARP request for the interface's address is answered by one frame of 42 bytes, and no
  -- other byte changes before it is sent; any other packet changes nothing. The frame has the layout of
  -- RFC 826's reply, but its destination and its target hardware address are the sender's address in
  -- the Ethernet frame, and not the one in the ARP packet.
  pub arp_process_packet-Answers :
      length h.dev.hw_addr ≡ 6
      → AllBytes h.dev.hw_addr
      → IsBytes (memory h)
      → IsBytes n.store.bytes
      → net_alloc h.net ≡ buffer frame n
      → 0 < frame
      → IsAway n.store.bytes frame 42 src 6
      → IsAway n.store.bytes frame 42 packet 28
      → Answers Card tx_packet h src packet frame n (arp_process_packet Card tx_packet src packet h)
  arp_process_packet-Answers six bytes b b' got pos src_away packet_away =
      let ip = h.dev.ipv4_addr in
      let m = memory h in
      elim (Bool-cases (is_ethernet_ipv4 m packet)) [
        | inr e ↦ inr (IsRequest-false ip packet m (inl e), arp-other (inl e))
        | inl e ↦ elim (Bool-cases (is_request_for ip m packet)) [
          | inr r ↦ inr (IsRequest-false ip packet m (inr r), arp-other (inr r))
          | inl r ↦
              let hw = h.dev.hw_addr in
              let w =
                write_reply-Wrote hw n.store.bytes src packet frame six b' src_away packet_away in
              let wire =
                arp_frame-AllBytes hw n.store.bytes src packet frame six b' src_away packet_away
                  bytes in
              let (reads, rest) = Wrote-read n.store.bytes frame 42 _ _ w wire in
              inl (
                IsRequest-true ip packet m b e r,
                write_reply hw src packet frame n.store.bytes,
                arp-request e r got pos,
                reads,
                rest,
              )
        ]
      ]

-- ===== src/Network/Icmp/Echo.antt =====
-- The answer to an echo request: its checksums, its type and its payload.
use frog_os.Base.{ℕ, ◌+◌, ◌-◌, ◌≤◌, ◌<◌, ◌≡◌, ◌≢◌, ◌⊎◌, refl, ◌∙◌, ap, arith, u16}
use frog_os.Base.{some, inl, inr, ◌==◌, Bool-cases, false}
use frog_os.Memory.{Mem, load16, store8, store16}
use frog_os.Memory.Laws.{IsBytes, store8-IsBytes, store16-IsBytes, memcpy-IsBytes}
use frog_os.Memory.Laws.{store8-outside, store16-outside, memcpy-outside}
use frog_os.Memory.Laws.{store8_self, memcpy-inside}
use frog_os.Network.Checksum.{ip_cksum}
use frog_os.Network.Pool.{Net, buffer, net_alloc}
use frog_os.Network.Pool.Chain.{IsClear}
use frog_os.Network.Host.{Host, Handled, handled, memory, with_bytes}
use frog_os.Network.Icmp.Cksum.{Checked, ip_cksum-same, store_cksum-Checked}
use frog_os.Network.Icmp.Header.{
  Off, write_headers-outside, write_headers-IsBytes, IsHeader, headers-IsHeader,
}
use frog_os.Network.Icmp.{write_headers, write_packet, store_cksum, write_echo, icmp_process_packet}

module _ (frame ip packet len new : ℕ) (m : Mem) where
  write_packet-outside :
      (x : ℕ) → 4 ≤ len → Off x (new + 34) len → write_packet packet len new m x ≡ m x
  unfolding write_packet
  write_packet-outside x four out =
      store8-outside _ (new + 34) 0 x (λ e. absurd (omega arith))
      ∙ store16-outside _ (new + 34 + 2) 0 x (omega arith)
      ∙ memcpy-outside m (new + 34) packet len x (omega arith)

  pub write_packet-IsBytes : IsBytes m → IsBytes (write_packet packet len new m)
  unfolding write_packet
  write_packet-IsBytes b = store8-IsBytes _ _ _ (store16-IsBytes _ _ _ (memcpy-IsBytes m _ _ _ b))

  write_packet-type : write_packet packet len new m (new + 34) ≡ 0
  unfolding write_packet
  write_packet-type = store8_self _ (new + 34) 0 (omega arith)

  write_packet-cksum : load16 (write_packet packet len new m) (new + 36) ≡ 0
  unfolding write_packet load16 store16 store8
  write_packet-cksum = ground arith

  write_packet-payload :
      (i : ℕ)
      → IsBytes m
      → (new + 34 + len ≤ packet) ⊎ (packet + len ≤ new + 34)
      → (i ≡ 1) ⊎ (4 ≤ i)
      → i < len
      → write_packet packet len new m (new + 34 + i) ≡ m (packet + i)
  unfolding write_packet
  write_packet-payload i b apart kept lt =
      store8-outside _ (new + 34) 0 (new + 34 + i) (λ e. absurd (omega arith))
      ∙ store16-outside _ (new + 34 + 2) 0 (new + 34 + i) (omega arith)
      ∙ memcpy-inside m (new + 34) packet len i b (omega arith) lt

-- What is sent: headers with the addresses swapped, both checksums right, the reply's type, and the
-- request's code and data.
pub record IsEcho (frame ip packet len new : ℕ) (m m' : Mem) : Type 0 where
  pub headers : IsHeader frame ip len new m m'
  pub header_cksum : ip_cksum 0 m' (new + 14) 20 ≡ some 0
  pub cksum : ip_cksum 0 m' (new + 34) len ≡ some 0
  pub reply : m' (new + 34) ≡ 0
  pub payload : (i : ℕ) → (i ≡ 1) ⊎ (4 ≤ i) → i < len → m' (new + 34 + i) ≡ m (packet + i)

module _ (frame ip packet len new : ℕ) (m : Mem) (b : IsBytes m) (clear : IsClear m new)
    (four : 4 ≤ len) (fits : len + 34 ≤ 2000) (apart : (new + 2000 ≤ packet) ⊎ (packet + len ≤ new))
    (frame_apart : (new + 2000 ≤ frame) ⊎ (frame + 12 ≤ new))
    (ip_apart : (new + 2000 ≤ ip) ⊎ (ip + 20 ≤ new)) where
  headers-Checked :
      Checked
        (write_headers frame ip len new m)
        (new + 14)
        20
        (new + 24)
        (store_cksum (new + 14) 20 (new + 24) (write_headers frame ip len new m))
  unfolding load16
  headers-Checked =
      let h = write_headers frame ip len new m in
      let zero_at : (x : ℕ) → new + 24 ≤ x → x < new + 26 → h x ≡ 0 = λ x lo hi.
        write_headers-outside frame ip len new m x (inr (lo, hi)) ∙ elim (clear (x - new)) [
          | inl e ↦ ap m (omega arith) ∙ e
          | inr out ↦ absurd (omega arith)
        ] in
      store_cksum-Checked h (new + 14) 20 5 (new + 24) (write_headers-IsBytes frame ip len new m b)
        (omega arith) (omega arith) (omega arith)
        (rw
          (
            zero_at (new + 24) (omega arith) (omega arith),
            zero_at (new + 24 + 1) (omega arith) (omega arith),
          )
          refl)

  write_echo-IsEcho :
      (m' : Mem) × (write_echo frame ip packet len new m ≡ some m')
      × IsEcho frame ip packet len new m m'
  unfolding write_echo
  write_echo-IsEcho =
      let h = write_headers frame ip len new m in
      let (n, e, good, nb, kept) = headers-Checked in
      let p = write_packet packet len new n in
      let (r, e', good', rb, kept') =
        store_cksum-Checked p (new + 34) len 1 (new + 36)
          (write_packet-IsBytes frame ip packet len new n nb) (omega arith) (omega arith)
          (omega arith) (write_packet-cksum frame ip packet len new n) in
      (
        r,
        rw (write_echo, e, e') refl,
        record {
          headers =
              headers-IsHeader frame ip len new m b fits frame_apart ip_apart r (λ x lo hi off.
                kept' x (omega arith)
                ∙ write_packet-outside frame ip packet len new n x four (omega arith)
                ∙ kept x off);
          header_cksum =
              ip_cksum-same n r (new + 14) 20 (λ x lo hi.
                kept' x (omega arith)
                ∙ write_packet-outside frame ip packet len new n x four (omega arith))
              ∙ good;
          cksum = good';
          reply = kept' (new + 34) (omega arith) ∙ write_packet-type frame ip packet len new n;
          payload = λ i which lt.
              kept' (new + 34 + i) (omega arith)
              ∙ write_packet-payload frame ip packet len new n i nb (omega arith) which lt
              ∙ kept (packet + i) (omega arith)
              ∙ write_headers-outside frame ip len new m (packet + i) (inl (omega arith));
        },
      )

-- What the answer comes to: for an echo request, one frame sent; for any other packet, nothing at all.
abbrev pub Echoes :
    (Card : Type 0)
    → (ℕ → ℕ → Host Card → ℕ × Host Card)
    → Host Card
    → ℕ
    → ℕ
    → ℕ
    → ℕ
    → ℕ
    → Net
    → Handled Card
    → Type 0
Echoes Card tx_packet h frame ip packet len new n o =
    ((memory h packet ≡ 8)
      × ((m' : Mem) × (o
            ≡ handled (tx_packet new (len + 34) (record h { net = with_bytes n m' })).1)
          × IsEcho frame ip packet len new n.store.bytes m'))
    ⊎ ((memory h packet ≢ 8) × (o ≡ handled h))

module _ (Card : Type 0) (tx_packet : ℕ → ℕ → Host Card → ℕ × Host Card) (h : Host Card)
    (frame ip packet len new : ℕ) (n : Net) where
  echo-sent :
      (m' : Mem)
      → memory h packet ≡ 8
      → net_alloc h.net ≡ buffer new n
      → 0 < new
      → len + 34 ≤ 2000
      → write_echo frame ip packet len new n.store.bytes ≡ some m'
      → icmp_process_packet Card tx_packet frame ip packet len h
        ≡ handled (tx_packet new (len + 34) (record h { net = with_bytes n m' })).1
  unfolding icmp_process_packet
  echo-sent m' request got pos fits e =
      let on : (new == 0) ≡ false = ground arith in
      let size : u16 (len + 20 + 14) ≡ len + 34 = omega arith in
      rw (icmp_process_packet, request, got, e, on)
        (ap (λ (k : ℕ). handled (tx_packet new k (record h { net = with_bytes n m' })).1) size)

  -- With a clear frame buffer that lies apart from the packet and from the headers received, an ICMP
  -- packet of 4 to 1966 bytes is answered, when it is an echo request, by one frame: it is IPv4 of the
  -- request's length, both the Ethernet and the IPv4 addresses are the request's, swapped, the
  -- checksums of the IPv4 header and of the ICMP packet are right, the type is 0, and the code and the
  -- data are the request's. Any other packet changes nothing.
  pub icmp_process_packet-Echoes :
      IsBytes n.store.bytes
      → net_alloc h.net ≡ buffer new n
      → 0 < new
      → IsClear n.store.bytes new
      → 4 ≤ len
      → len + 34 ≤ 2000
      → (new + 2000 ≤ packet) ⊎ (packet + len ≤ new)
      → (new + 2000 ≤ frame) ⊎ (frame + 12 ≤ new)
      → (new + 2000 ≤ ip) ⊎ (ip + 20 ≤ new)
      → Echoes Card tx_packet h frame ip packet len new n
          (icmp_process_packet Card tx_packet frame ip packet len h)
  icmp_process_packet-Echoes b got pos clear four fits apart frame_apart ip_apart =
      elim (Bool-cases (memory h packet == 8)) [
        | inr other ↦ inr (ground arith, unfold icmp_process_packet in rw other refl)
        | inl request ↦
            let (m', e, echo) =
              write_echo-IsEcho frame ip packet len new n.store.bytes b clear four fits apart
                frame_apart ip_apart in
            let type : memory h packet ≡ 8 = ground arith in
            inl (type, (m', echo-sent m' type got pos fits e, echo))
      ]

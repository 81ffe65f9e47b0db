-- ===== src/Pcnet32/Ring/Sent.antt =====
-- What a client sees of a frame that is sent.
use frog_os.Base.{
  ℕ, zero, suc, ◌+◌, ◌-◌, ◌*◌, ◌%◌, ◌^◌, ◌≤◌, ◌<◌, ◌≡◌, ◌⊎◌, refl, arith, u32, inl, inr,
}
use frog_os.Base.{true, false, Bool-cases, bit_and}
use frog_os.Memory.{Mem, load16, load32}
use frog_os.Memory.Laws.{IsBytes}
use frog_os.Memory.Bytes.{read_bytes}
use frog_os.Network.Pool.{net_free}
use frog_os.Network.Host.{Host, memory, with_bytes}
use frog_os.Pcnet32.{Card}
use frog_os.Pcnet32.Ring.{driver_owns, tx_packet}
use frog_os.Pcnet32.Ring.Slot.{next_slot}
use frog_os.Pcnet32.Ring.Transmit.{IsSendable, slot_at, buffer_at, copied, freed, sent, sent-count}
use frog_os.Pcnet32.Ring.Transmit.{sent-flags, sent-buffer, sent-link, other-descriptors}

-- A host after its frame was handed to the card: the slot's buffer holds the frame and its descriptor
-- has the frame's two's complement length, both ends of a packet, and the card for its owner; the rest
-- of the ring is as it was, and the frame's buffer is the first of the pool.
pub record IsSent (h : Host Card) (packet len : ℕ) (h' : Host Card) : Type 0 where
  pub frame : read_bytes (memory h') (buffer_at h.card) len ≡ read_bytes (memory h) packet len
  pub given : driver_owns (memory h') h.card.tdes h.card.tx_buffer_ptr ≡ false
  pub ends : bit_and (memory h' (slot_at h.card + 7)) 3 ≡ 3
  pub count : load16 (memory h') (slot_at h.card + 4) ≡ 0xf000 + (4096 - len)
  pub others :
      (x : ℕ)
      → h.card.tdes ≤ x
      → x < h.card.tdes + 16 * h.card.tx_buffer_count
      → (x < slot_at h.card + 4) ⊎ (slot_at h.card + 8 ≤ x)
      → memory h' x ≡ memory h x
  pub released : (h'.net.buffers ≡ packet) × (load32 (memory h') packet ≡ h.net.buffers)
  pub slot :
      h'.card
      ≡ record h.card { tx_buffer_ptr = (h.card.tx_buffer_ptr + 1) % h.card.tx_buffer_count }
  pub counted : h'.dev ≡ record h.dev { tx_packets = u32 (h.dev.tx_packets + 1) }

-- The bytes of two runs of memory agree when they agree one by one.
read_bytes-copy :
    (m m' : Mem) (a b n : ℕ)
    → ((i : ℕ) → i < n → m' (a + i) ≡ m (b + i))
    → read_bytes m' a n ≡ read_bytes m b n
read_bytes-copy m m' a b zero same = refl
read_bytes-copy m m' a b (suc n) same =
    let first : m' a ≡ m b = ground (arith, same 0 (omega arith)) in
    let later : (i : ℕ) → i < n → m' (a + 1 + i) ≡ m (b + 1 + i) =
      λ i h. ground (arith, same (i + 1) (omega arith)) in
    rw (first, read_bytes-copy m m' (a + 1) (b + 1) n later) refl

-- The host after the call, when the driver owns the descriptor.
unfoldable pub after : ℕ → ℕ → Host Card → Host Card
after packet len h = record {
  net = with_bytes (net_free packet h.net) (sent h.card packet len h.net.buffers (memory h));
  dev = record h.dev { tx_packets = u32 (h.dev.tx_packets + 1) };
  card = record h.card { tx_buffer_ptr = (h.card.tx_buffer_ptr + 1) % h.card.tx_buffer_count };
}

module _ (packet len : ℕ) (h : Host Card) (b : IsBytes (memory h))
    (s : IsSendable h.card packet len) where
  pub tx_packet-after :
      driver_owns (memory h) h.card.tdes h.card.tx_buffer_ptr ≡ true
      → tx_packet packet len h ≡ (1, after packet len h)
  unfolding tx_packet after net_free sent freed copied
  tx_packet-after own =
      rw (own, next_slot h.card.tx_buffer_ptr h.card.tx_buffer_count s.slot s.count) refl

  after-IsSent : h.net.buffers < 2 ^ 32 → IsSent h packet len (after packet len h)
  unfolding after net_free driver_owns
  after-IsSent l =
      let c = h.card in
      let next = h.net.buffers in
      let m = memory h in
      let (low, top, ends) = sent-flags c packet len next m b s in
      record {
        frame =
            read_bytes-copy m (sent c packet len next m) (buffer_at c) packet len
              (sent-buffer c packet len next m b s);
        given =
            let at : c.tdes + (16 * c.tx_buffer_ptr + 7) ≡ slot_at c + 7 = omega arith in
            rw (at, top) refl;
        ends = ends;
        count = sent-count c packet len next m b s;
        others = other-descriptors c packet len next m b s;
        released = (refl, sent-link c packet len next m b s l);
        slot = refl;
        counted = refl;
      }

-- Handing a frame of 1 to 1600 bytes, which lies apart from the transmit ring, to the card: when the
-- driver owns the next descriptor, the call returns 1 with the frame sent through its slot, and otherwise
-- it returns 0 and nothing changes.
pub tx_packet-IsSent :
    (packet len : ℕ) (h : Host Card)
    → IsBytes (memory h)
    → h.net.buffers < 2 ^ 32
    → IsSendable h.card packet len
    → ((driver_owns (memory h) h.card.tdes h.card.tx_buffer_ptr ≡ true)
        × ((h' : Host Card) × (tx_packet packet len h ≡ (1, h')) × IsSent h packet len h'))
      ⊎ ((driver_owns (memory h) h.card.tdes h.card.tx_buffer_ptr ≡ false)
          × (tx_packet packet len h ≡ (0, h)))
tx_packet-IsSent packet len h b l s =
    elim (Bool-cases (driver_owns (memory h) h.card.tdes h.card.tx_buffer_ptr)) [
      | inr card ↦ inr (card, unfold tx_packet in rw card refl)
      | inl own ↦ inl (
        own,
        (after packet len h, tx_packet-after packet len h b s own, after-IsSent packet len h b s l),
      )
    ]

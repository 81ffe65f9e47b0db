-- ===== src/Pcnet32/Work/Send.antt =====
-- A frame that is handed to the card: the pool takes its buffer back, and the receive ring is left alone.
use frog_os.Base.{ℕ, ◌+◌, ◌%◌, ◌≤◌, ◌<◌, ◌≡◌, refl, sym, ap, arith, inl, inr}
use frog_os.Base.{List, ◌∷◌, Bool-cases}
use mathlib.Core.Path.{subst}
use frog_os.Memory.Laws.{memcpy-outside, memcpy-IsBytes}
use frog_os.Network.Pool.{Net, net_free}
use frog_os.Network.Pool.Area.{IsNetBeside, area-IsNetBeside, net_free-IsNetBeside}
use frog_os.Network.Host.{Host, handled, memory, with_bytes}
use frog_os.Pcnet32.{Card}
use frog_os.Pcnet32.Ring.{driver_owns, tx_packet}
use frog_os.Pcnet32.Ring.Slot.{slot-lt}
use frog_os.Pcnet32.Ring.Receive.{IsInRing}
use frog_os.Pcnet32.Ring.Transmit.{
  IsSendable, buffer_at, copied, freed, sent, sent-outside, sent-off, sent-IsBytes,
}
use frog_os.Pcnet32.Ring.Sent.{after, tx_packet-after}
use frog_os.Pcnet32.Work.{IsPlaced, IsHost, Returns}

-- The place in the transmit ring says nothing of where the rings lie.
pub IsPlaced-slot :
    (lo hi : ℕ) (c d : Card) (q : ℕ)
    → d ≡ record c { tx_buffer_ptr = q }
    → IsPlaced lo hi c
    → IsPlaced lo hi d
IsPlaced-slot lo hi c d q e p =
    subst (λ k. IsPlaced lo hi k) (sym e)
      (record {
        ring = record { count = p.ring.count; below = p.ring.below; apart = p.ring.apart };
        tx_count = p.tx_count;
        rdes_in = p.rdes_in;
        rx_in = p.rx_in;
        tdes_in = p.tdes_in;
        tx_in = p.tx_in;
        tx_apart = p.tx_apart;
        tdes_apart = p.tdes_apart;
        buffers_apart = p.buffers_apart;
      })

module _ (limit lo hi : ℕ) (c : Card) (p : IsPlaced lo hi c) (a len : ℕ) (held free : List ℕ) where
  held-IsSendable :
      (n : Net)
      → IsNetBeside limit lo hi n (a ∷ held) free
      → c.tx_buffer_ptr < c.tx_buffer_count
      → 0 < len
      → len ≤ 1600
      → IsSendable c a len
  held-IsSendable n v slot pos fits =
      let (off, rest) = v.off_held in
      record {
        slot = slot;
        count = p.tx_count;
        positive = pos;
        fits = fits;
        rings_apart = p.tx_apart;
        frame_off_buffers = omega (arith, p.tx_in, slot);
        frame_off_descriptors = omega (arith, p.tdes_in, slot);
      }

  -- The copy to the card's buffer, the frame's release, and the writes to the descriptor.
  sent-IsNetBeside :
      (n : Net)
      → IsNetBeside limit lo hi n (a ∷ held) free
      → IsSendable c a len
      → IsNetBeside limit lo hi
          (with_bytes (net_free a n) (sent c a len n.buffers n.store.bytes))
          held
          (a ∷ free)
  unfolding net_free copied freed
  sent-IsNetBeside n v s =
      let m = n.store.bytes in
      let copy = copied c a len n.buffers m in
      let n₁ = with_bytes n copy in
      let v₁ =
        area-IsNetBeside limit lo hi n copy (a ∷ held) free v (memcpy-IsBytes m _ _ _ v.bytes)
          (λ x off.
            memcpy-outside m (buffer_at c) a len x (omega (arith, s.slot, s.fits, p.tx_in))) in
      let v₂ = net_free-IsNetBeside limit lo hi a n₁ held free v₁ in
      area-IsNetBeside limit lo hi (net_free a n₁) (sent c a len n.buffers m) held (a ∷ free) v₂
        (sent-IsBytes c a len n.buffers m v.bytes s)
        (λ x off. sent-outside c a len n.buffers m v.bytes s x (omega (arith, s.slot, p.tdes_in)))

  sent-ring :
      (n : Net) (x : ℕ)
      → IsNetBeside limit lo hi n (a ∷ held) free
      → IsSendable c a len
      → IsInRing c x
      → sent c a len n.buffers n.store.bytes x ≡ n.store.bytes x
  sent-ring n x v s (ge, lt) =
      let (off, rest) = v.off_held in
      sent-off c a len n.buffers n.store.bytes v.bytes s x (omega (arith, p.tdes_apart))
        (omega (arith, p.buffers_apart)) (omega (arith, p.rdes_in))

-- With a frame of a held buffer, sent or not, the host runs on.
pub tx_packet-Returns :
    (limit lo hi : ℕ) (c : Card)
    → IsPlaced lo hi c
    → (a len : ℕ) (held free : List ℕ) (h : Host Card) → IsHost limit lo hi c (a ∷ held) free h
    → 0 < len
    → len ≤ 1600
    → Returns limit lo hi c h (handled (tx_packet a len h).1)
unfolding after tx_packet
tx_packet-Returns limit lo hi c p a len held free h v pos fits =
    elim (Bool-cases (driver_owns (memory h) h.card.tdes h.card.tx_buffer_ptr)) [
      | inr card ↦ (h, rw card refl, (a ∷ held, free, v), refl, λ x inside. refl)
      | inl own ↦
          let d = h.card in
          let pd = IsPlaced-slot lo hi c d v.place v.card p in
          let slot : d.tx_buffer_ptr < d.tx_buffer_count =
            let i = ap (λ (k : Card). k.tx_buffer_ptr) v.card in
            let n = ap (λ (k : Card). k.tx_buffer_count) v.card in omega (arith, v.place_in) in
          let s = held-IsSendable limit lo hi d pd a len held free h.net v.net slot pos fits in
          let e = tx_packet-after a len h v.net.bytes s own in
          (
            after a len h,
            ap (λ (o : ℕ × Host Card). handled o.1) e,
            (
              held,
              a ∷ free,
              record {
                net = sent-IsNetBeside limit lo hi d pd a len held free h.net v.net s;
                place = (v.place + 1) % c.tx_buffer_count;
                place_in = slot-lt v.place 1 c.tx_buffer_count v.place_in;
                card =
                    ap
                      (λ (k : Card). record k {
                        tx_buffer_ptr = (k.tx_buffer_ptr + 1) % k.tx_buffer_count;
                      })
                      v.card;
                address = v.address;
              },
            ),
            refl,
            λ x inside.
                sent-ring limit lo hi d pd a len held free h.net x v.net s
                  (subst (λ k. IsInRing k x) (sym v.card) inside),
          )
    ]

-- ===== src/Pcnet32/Ring/Transmit.antt =====
-- What sending a frame does to its slot of the transmit ring, and to the rest of the memory.
use frog_os.Base.{ℕ, ◌+◌, ◌-◌, ◌*◌, ◌^◌, ◌≤◌, ◌<◌, ◌≡◌, ◌⊎◌, refl, ◌∙◌, arith}
use frog_os.Base.{u8, u16, bit_and, bit_or, bit_and_mask, bit_or_above, all_below, eq_below}
use frog_os.Memory.{Mem, load16, load32, store8, store16, store32, memset, memcpy}
use frog_os.Memory.Laws.{IsBytes, store32-outside, memset-outside, memcpy-outside}
use frog_os.Memory.Laws.{
  store8-IsBytes, store16-IsBytes, store32-IsBytes, memset-IsBytes, memcpy-IsBytes,
}
use frog_os.Memory.Laws.{memcpy-inside, load32-store32_self, load32-same}
use frog_os.Pcnet32.{Card}
use frog_os.Pcnet32.Ring.{byte_count, set_bits}

-- The twelve bits of a byte count are the two's complement of the length.
byte_count_lem : (len : ℕ) → 0 < len → len ≤ 1600 → byte_count len ≡ 0xf000 + (4096 - len)
unfolding byte_count
byte_count_lem len pos h =
    let low : bit_and (u16 (2 ^ 16 - len)) 0xfff ≡ 4096 - len =
      bit_and_mask 12 (u16 (2 ^ 16 - len)) ∙ omega arith in
    rw low (bit_or_above 12 15 (4096 - len) (omega arith))

-- The flags of a descriptor with a whole frame, given to the card, by evaluation.
flags-table :
    (v : ℕ)
    → v < 256
    → let w = u8 (bit_or (u8 (bit_or v 3)) 0x80) in
      (w < 256) × (bit_and w 0x80 ≡ 0x80) × (bit_and w 3 ≡ 3)
unfolding all_below
flags-table v h =
    let w = λ (x : ℕ). u8 (bit_or (u8 (bit_or x 3)) 0x80) in
    (
      omega arith,
      eq_below 256 (λ x. bit_and (w x) 0x80) (λ x. 0x80) v refl h,
      eq_below 256 (λ x. bit_and (w x) 3) (λ x. 3) v refl h,
    )

-- The transmit ring of a card and a frame that lie apart.
pub record IsSendable (c : Card) (packet len : ℕ) : Type 0 where
  pub slot : c.tx_buffer_ptr < c.tx_buffer_count
  pub count : c.tx_buffer_count < 2 ^ 16
  pub positive : 0 < len
  pub fits : len ≤ 1600
  pub rings_apart :
      (c.tdes + 16 * c.tx_buffer_count ≤ c.tx_buffers)
      ⊎ (c.tx_buffers + 1600 * c.tx_buffer_count ≤ c.tdes)
  pub frame_off_buffers :
      (packet + 2000 ≤ c.tx_buffers) ⊎ (c.tx_buffers + 1600 * c.tx_buffer_count ≤ packet)
  pub frame_off_descriptors : (packet + 2000 ≤ c.tdes) ⊎ (c.tdes + 16 * c.tx_buffer_count ≤ packet)

-- The memory after a frame is sent, in the order of the writes.
abbrev pub slot_at : Card → ℕ
slot_at c = c.tdes + c.tx_buffer_ptr * 16

abbrev pub buffer_at : Card → ℕ
buffer_at c = c.tx_buffers + c.tx_buffer_ptr * 1600

module _ (c : Card) (packet len next : ℕ) (m : Mem) where
  unfoldable pub copied : Mem
  copied = memcpy m (buffer_at c) packet len

  unfoldable pub freed : Mem
  freed = store32 (memset copied packet 0 2000) packet next

  unfoldable pub sent : Mem
  sent =
      set_bits (store16 (set_bits freed (slot_at c + 7) 0x3) (slot_at c + 4) (byte_count len))
        (slot_at c + 7) 0x80

  module _ (b : IsBytes m) (s : IsSendable c packet len) where
    -- The ring's descriptors are not touched by the copy and the release of the frame.
    freed-descriptors : (x : ℕ) → c.tdes ≤ x → x < c.tdes + 16 * c.tx_buffer_count → freed x ≡ m x
    unfolding freed copied
    freed-descriptors x lo hi =
        store32-outside (memset copied packet 0 2000) packet next x
          (omega (arith, s.frame_off_descriptors))
        ∙ memset-outside copied packet 0 2000 x (omega (arith, s.frame_off_descriptors))
        ∙ memcpy-outside m (buffer_at c) packet len x (omega (arith, s.rings_apart, s.slot, s.fits))

    pub sent-outside : (x : ℕ) → (x < slot_at c + 4) ⊎ (slot_at c + 8 ≤ x) → sent x ≡ freed x
    unfolding sent set_bits
    sent-outside x out = unfold store16 store8 in ground arith

    pub other-descriptors :
        (x : ℕ)
        → c.tdes ≤ x
        → x < c.tdes + 16 * c.tx_buffer_count
        → (x < slot_at c + 4) ⊎ (slot_at c + 8 ≤ x)
        → sent x ≡ m x
    other-descriptors x lo hi out = sent-outside x out ∙ freed-descriptors x lo hi

    -- Only the descriptor, the ring's buffers and the frame are written.
    pub sent-off :
        (x : ℕ)
        → (x < c.tdes) ⊎ (c.tdes + 16 * c.tx_buffer_count ≤ x)
        → (x < c.tx_buffers) ⊎ (c.tx_buffers + 1600 * c.tx_buffer_count ≤ x)
        → (x < packet) ⊎ (packet + 2000 ≤ x)
        → sent x ≡ m x
    unfolding freed copied
    sent-off x off_descriptors off_buffers off_frame =
        sent-outside x (omega (arith, s.slot))
        ∙ store32-outside (memset copied packet 0 2000) packet next x (omega arith)
        ∙ memset-outside copied packet 0 2000 x (omega arith)
        ∙ memcpy-outside m (buffer_at c) packet len x (omega (arith, s.slot, s.fits))

    pub sent-IsBytes : IsBytes sent
    unfolding sent freed copied set_bits
    sent-IsBytes = store8-IsBytes _ _ _ (
        store16-IsBytes _ _ _ (
          store8-IsBytes _ _ _
            (store32-IsBytes _ _ _ (memset-IsBytes _ _ _ _ (memcpy-IsBytes m _ _ _ b)))))

    pub sent-count : load16 sent (slot_at c + 4) ≡ 0xf000 + (4096 - len)
    unfolding sent set_bits load16 store16 store8
    sent-count = ground (arith, byte_count_lem len s.positive s.fits)

    sent-flag : sent (slot_at c + 7) ≡ u8 (bit_or (u8 (bit_or (m (slot_at c + 7)) 3)) 0x80)
    unfolding sent set_bits store16 store8
    sent-flag =
        let same = freed-descriptors (slot_at c + 7) (omega arith) (omega (arith, s.slot)) in
        rw (← same) (ground arith)

    pub sent-flags :
        (sent (slot_at c + 7) < 256)
        × (bit_and (sent (slot_at c + 7)) 0x80 ≡ 0x80)
        × (bit_and (sent (slot_at c + 7)) 3 ≡ 3)
    sent-flags = rw sent-flag (flags-table (m (slot_at c + 7)) (b (slot_at c + 7)))

    pub sent-buffer : (i : ℕ) → i < len → sent (buffer_at c + i) ≡ m (packet + i)
    unfolding copied memcpy
    sent-buffer i h =
        sent-outside (buffer_at c + i) (omega (arith, s.rings_apart, s.slot, s.fits))
        ∙ unfold freed in
          (store32-outside (memset copied packet 0 2000) packet next (buffer_at c + i)
              (omega (arith, s.frame_off_buffers, s.slot, s.fits))
            ∙ memset-outside copied packet 0 2000 (buffer_at c + i)
                (omega (arith, s.frame_off_buffers, s.slot, s.fits))
            ∙ memcpy-inside m (buffer_at c) packet len i b
                (omega (arith, s.frame_off_buffers, s.slot, s.fits)) h)

    pub sent-link : next < 2 ^ 32 → load32 sent packet ≡ next
    sent-link h =
        load32-same packet freed sent
          (λ x lo hi. sent-outside x (omega (arith, s.frame_off_descriptors, s.slot)))
        ∙ unfold freed in load32-store32_self (memset copied packet 0 2000) packet next h

-- ===== src/Pcnet32/Ring/Receive.antt =====
-- A round of the receive loop, and the descriptors that it leaves alone.
use frog_os.Base.{ℕ, ◌+◌, ◌*◌, ◌^◌, ◌≤◌, ◌<◌, ◌≡◌, ◌≢◌, ◌⊎◌, ◌∙◌, ap, arith, u8, u16, u32}
use frog_os.Base.{bit_or, ◌<<<◌}
use frog_os.Memory.{Mem, store8, memset}
use frog_os.Memory.Laws.{IsBytes, store8-IsBytes, store8-outside, memset-outside, memset-IsBytes}
use frog_os.Network.Host.{Host, Handled, handled, memory, with_bytes}
use frog_os.Pcnet32.{Card}
use frog_os.Pcnet32.Ring.{set_bits, receive, and_then}

-- The address of a descriptor's flags, and the message's length in it.
abbrev pub flags_at : Card → ℕ → ℕ
flags_at c i = c.rdes + 16 * i + 7

abbrev pub message_size : Card → Mem → ℕ → ℕ
message_size c m i = let at = c.rdes + 16 * i in u16 (bit_or (m (at + 8)) (m (at + 9) <<< 8))

-- A receive ring whose buffers lie below 4 GB and apart from the descriptors.
pub record IsRing (c : Card) : Type 0 where
  pub count : c.rx_buffer_count < 2 ^ 16
  pub below : c.rx_buffers + 1600 * c.rx_buffer_count ≤ 2 ^ 32
  pub apart :
      (c.rdes + 16 * c.rx_buffer_count ≤ c.rx_buffers)
      ⊎ (c.rx_buffers + 1600 * c.rx_buffer_count ≤ c.rdes)

abbrev pub IsInRing : Card → ℕ → Type 0
IsInRing c x = (c.rdes ≤ x) × (x < c.rdes + 16 * c.rx_buffer_count)

-- What the loop relies on from the code that handles a frame, for a property of the host that this
-- code and the loop's own writes keep: from a frame with its header and checksum it returns, and writes
-- neither the ring's descriptors nor the driver's state but for the place in the transmit ring.
pub record Handles (c : Card) (process : ℕ → ℕ → Host Card → Handled Card)
    (Inv : Host Card → Type 0) : Type 0 where
  pub bytes : (h : Host Card) → Inv h → IsBytes (memory h)
  pub card : (h : Host Card) → Inv h → (q : ℕ) × (h.card ≡ record c { tx_buffer_ptr = q })
  pub handles :
      (a n : ℕ) (h : Host Card)
      → Inv h
      → 18 ≤ n
      → n ≤ 1600
      → (t : Host Card) × (process a n h ≡ handled t)
        × Inv t
        × (t.dev.rx_packets ≡ h.dev.rx_packets)
        × ((x : ℕ) → IsInRing c x → memory t x ≡ memory h x)
  pub counts :
      (h : Host Card) (n : ℕ) → Inv h → Inv (record h { dev = record h.dev { rx_packets = n } })
  pub clears :
      (h : Host Card) (m : Mem)
      → Inv h
      → IsBytes m
      → ((x : ℕ)
          → (x < c.rx_buffers) ⊎ (c.rx_buffers + 1600 * c.rx_buffer_count ≤ x)
          → (x < c.rdes) ⊎ (c.rdes + 16 * c.rx_buffer_count ≤ x)
          → m x ≡ memory h x)
      → Inv (record h { net = with_bytes h.net m })

module _ (c : Card) (r : IsRing c) (i : ℕ) (below : i < c.rx_buffer_count) (m : Mem) (n : ℕ)
    (small : n ≤ 1600) where
  -- The memory after the loop's own writes of a round.
  unfoldable cleared : Mem
  cleared = set_bits (memset m (c.rx_buffers + i * 1600) 0 n) (flags_at c i) 0x80

  memset-descriptors : (x : ℕ) → IsInRing c x → memset m (c.rx_buffers + i * 1600) 0 n x ≡ m x
  memset-descriptors x (lo, hi) =
      memset-outside m (c.rx_buffers + i * 1600) 0 n x (omega (arith, r.apart, below, small))

  cleared-flags : cleared (flags_at c i) ≡ u8 (bit_or (m (flags_at c i)) 0x80)
  unfolding cleared set_bits store8
  cleared-flags =
      let same = memset-descriptors (flags_at c i) (omega arith, omega (arith, below)) in
      rw (← same) (ground arith)

  cleared-others : (x : ℕ) → IsInRing c x → x ≢ flags_at c i → cleared x ≡ m x
  unfolding cleared set_bits
  cleared-others x inside ne =
      store8-outside (memset m (c.rx_buffers + i * 1600) 0 n) (flags_at c i) _ x ne
      ∙ memset-descriptors x inside

  cleared-outside :
      (x : ℕ)
      → (x < c.rx_buffers) ⊎ (c.rx_buffers + 1600 * c.rx_buffer_count ≤ x)
      → (x < c.rdes) ⊎ (c.rdes + 16 * c.rx_buffer_count ≤ x)
      → cleared x ≡ m x
  unfolding cleared set_bits
  cleared-outside x off_buffers off_ring =
      store8-outside (memset m (c.rx_buffers + i * 1600) 0 n) (flags_at c i) _ x
        (λ e. absurd (omega (arith, below)))
      ∙ memset-outside m (c.rx_buffers + i * 1600) 0 n x (omega (arith, below, small))

  cleared-IsBytes : IsBytes m → IsBytes cleared
  unfolding cleared set_bits
  cleared-IsBytes b = store8-IsBytes _ _ _ (memset-IsBytes m (c.rx_buffers + i * 1600) 0 n b)

-- A round of which the frame's handling has returned.
receive-eq :
    (c : Card) (process : ℕ → ℕ → Host Card → Handled Card) (r : IsRing c) (i : ℕ)
    (below : i < c.rx_buffer_count) (h t : Host Card) (small : message_size c (memory h) i ≤ 1600)
    → h.card.rdes ≡ c.rdes
    → u32 (h.card.rx_buffers + i * 1600) ≡ c.rx_buffers + i * 1600
    → process
        (c.rx_buffers + i * 1600)
        (message_size c (memory h) i)
        (record h { dev = record h.dev { rx_packets = u32 (h.dev.rx_packets + 1) } })
      ≡ handled t
    → receive process i h
      ≡ handled (record t {
        net = with_bytes t.net (cleared c r i below (memory t) (message_size c (memory h) i) small);
      })
unfolding receive cleared
receive-eq c process r i below h t small at buffers e =
    let k : Card → Host Card → Handled Card = λ d t. handled (record t {
      net = with_bytes t.net (
          set_bits (memset (memory t) d.rx_buffers 0 (message_size d (memory h) i)) (flags_at d i)
            0x80);
    }) in
    let round = λ (d : Card).
      and_then
        (process d.rx_buffers (message_size d (memory h) i)
          (record h { dev = record h.dev { rx_packets = u32 (h.dev.rx_packets + 1) } }))
        (k d) in
    ap (λ (a : ℕ). round (record c { rx_buffers = a; rdes = h.card.rdes })) buffers
    ∙ ap (λ (d : ℕ). round (record c { rx_buffers = c.rx_buffers + i * 1600; rdes = d })) at
    ∙ ap (λ (u : Handled Card). and_then u (k (record c { rx_buffers = c.rx_buffers + i * 1600 })))
        e

module _ (c : Card) (process : ℕ → ℕ → Host Card → Handled Card) (Inv : Host Card → Type 0)
    (r : IsRing c) (s : Handles c process Inv) where
  -- The host after a round: the card owns the descriptor `i`, and the others are as they were.
  pub record Received (i : ℕ) (h t : Host Card) : Type 0 where
    pub inv : Inv t
    pub given : memory t (flags_at c i) ≡ u8 (bit_or (memory h (flags_at c i)) 0x80)
    pub others : (x : ℕ) → IsInRing c x → x ≢ flags_at c i → memory t x ≡ memory h x
    pub counted : t.dev.rx_packets ≡ u32 (h.dev.rx_packets + 1)

  pub receive-Received :
      (i : ℕ) (h : Host Card)
      → Inv h
      → i < c.rx_buffer_count
      → 18 ≤ message_size c (memory h) i
      → message_size c (memory h) i ≤ 1600
      → (t : Host Card) × (receive process i h ≡ handled t) × Received i h t
  unfolding receive
  receive-Received i h v below enough small =
      let (q, on) = s.card h v in
      let at : h.card.rdes ≡ c.rdes = ap (λ (k : Card). k.rdes) on in
      let buffers : u32 (h.card.rx_buffers + i * 1600) ≡ c.rx_buffers + i * 1600 =
        let e = ap (λ (k : Card). k.rx_buffers) on in omega (arith, below, r.below) in
      let a = c.rx_buffers + i * 1600 in
      let mcnt = message_size c (memory h) i in
      let counted = record h { dev = record h.dev { rx_packets = u32 (h.dev.rx_packets + 1) } } in
      let (t, e, w, n, same) =
        s.handles a mcnt counted (s.counts h (u32 (h.dev.rx_packets + 1)) v) enough small in
      let m = cleared c r i below (memory t) mcnt small in
      (
        record t { net = with_bytes t.net m },
        receive-eq c process r i below h t small at buffers e,
        record {
          inv =
              s.clears t m w (cleared-IsBytes c r i below (memory t) mcnt small (s.bytes t w))
                (cleared-outside c r i below (memory t) mcnt small);
          given =
              cleared-flags c r i below (memory t) mcnt small
              ∙ ap (λ (b : ℕ). u8 (bit_or b 0x80))
                  (same (flags_at c i) (omega arith, omega (arith, below)));
          others = λ x inside ne.
              cleared-others c r i below (memory t) mcnt small x inside ne ∙ same x inside;
          counted = n;
        },
      )

-- ===== src/Pcnet32/Ring.antt =====
-- pcnet32.c: the rings of receive and transmit descriptors. A descriptor has the buffer's address at
-- the offset 0, the byte count at 4, the flags at 7, of which the top one says that the card owns the
-- descriptor, and the message's length at 8.
pub mod Transmit
pub mod Sent
pub mod Receive
pub mod Slot
pub mod Drain
pub mod Drained
use frog_os.Base.{ℕ, zero, suc, ◌+◌, ◌-◌, ◌*◌, ◌^◌, bit_and, bit_or, u8, u16, u32, ◌==◌, leb}
use frog_os.Base.{if◌then◌else◌, Bool, ◌<<<◌}
use frog_os.Memory.{Mem, store8, store16, store32, memset, memcpy}
use frog_os.Paging.{get_physaddr}
use frog_os.Network.Pool.{Net, net_free}
use frog_os.Network.Host.{Device, Host, Handled, handled, stuck, memory, with_bytes}
use frog_os.Network.Ether.{ether_process_frame}
use frog_os.Pcnet32.{Card, pcnet32_buffer_size}

unfoldable pub driver_owns : Mem → ℕ → ℕ → Bool
driver_owns m des idx = bit_and (m (des + (16 * idx + 7))) 0x80 == 0

unfoldable pub inc_txidx : Card → Card
inc_txidx dev =
    let next = u16 (dev.tx_buffer_ptr + 1) in
    record dev { tx_buffer_ptr = if next == dev.tx_buffer_count then 0 else next }

unfoldable pub inc_rxidx : Card → Card
inc_rxidx dev =
    let next = u16 (dev.rx_buffer_ptr + 1) in
    record dev { rx_buffer_ptr = if next == dev.rx_buffer_count then 0 else next }

-- `bcnt`, the two's complement of a length in twelve bits, below four ones.
unfoldable pub byte_count : ℕ → ℕ
byte_count len = bit_or (bit_and (u16 (2 ^ 16 - len)) 0xfff) 0xf000

unfoldable pub initialize_de : Card → ℕ → Bool → Mem → Mem
unfolding byte_count
initialize_de dev idx is_tx m =
    let des = if is_tx then dev.tdes else dev.rdes in
    let buf_addr = if is_tx then dev.tx_buffers else dev.rx_buffers in
    let at = des + idx * 16 in
    let m₁ = memset m at 0 16 in
    let m₂ = store32 m₁ at (get_physaddr m₁ (u32 (buf_addr + idx * pcnet32_buffer_size))) in
    let m₃ = store16 m₂ (at + 4) (byte_count pcnet32_buffer_size) in
    if is_tx then m₃ else store8 m₃ (at + 7) 0x80

-- `|=` on a byte.
unfoldable pub set_bits : Mem → ℕ → ℕ → Mem
set_bits m a bits = store8 m a (bit_or (m a) bits)

unfoldable pub tx_packet : ℕ → ℕ → Host Card → ℕ × Host Card
unfolding driver_owns set_bits byte_count
tx_packet packet len h =
    let c = h.card in
    let at = c.tdes + c.tx_buffer_ptr * 16 in
    let copied =
      memcpy (memory h) (c.tx_buffers + c.tx_buffer_ptr * pcnet32_buffer_size) packet len in
    let freed = net_free packet (with_bytes h.net copied) in
    let m₁ = set_bits freed.store.bytes (at + 7) 0x3 in
    let m₂ = store16 m₁ (at + 4) (byte_count len) in
    let m₃ = set_bits m₂ (at + 7) 0x80 in
    let next = u16 (c.tx_buffer_ptr + 1) in
    if driver_owns (memory h) c.tdes c.tx_buffer_ptr
    then (
      1,
      record {
        net = with_bytes freed m₃;
        dev = record h.dev { tx_packets = u32 (h.dev.tx_packets + 1) };
        card = record c { tx_buffer_ptr = if leb c.tx_buffer_count next then 0 else next };
      },
    )
    else (0, h)

abbrev pub and_then : Handled Card → (Host Card → Handled Card) → Handled Card
and_then stuck k = stuck
and_then (handled h) k = k h

-- A round of the receive loop at the descriptor `de_ptr`, given what handles a frame.
module _ (process : ℕ → ℕ → Host Card → Handled Card) where
  unfoldable pub receive : ℕ → Host Card → Handled Card
  unfolding set_bits
  receive de_ptr h =
      let c = h.card in
      let rx_buff = u32 (c.rx_buffers + de_ptr * pcnet32_buffer_size) in
      let at = c.rdes + 16 * de_ptr in
      let mcnt = u16 (bit_or (memory h (at + 8)) (memory h (at + 9) <<< 8)) in
      let counted = record h { dev = record h.dev { rx_packets = u32 (h.dev.rx_packets + 1) } } in
      and_then (process rx_buff mcnt counted) (λ t. handled (record t {
        net = with_bytes t.net (set_bits (memset (memory t) rx_buff 0 mcnt) (at + 7) 0x80);
      }))

  -- The loop, with the rounds that are left; it returns the next descriptor.
  unfoldable pub receive_all : ℕ → ℕ → Host Card → Handled Card
  unfolding receive driver_owns
  receive_all zero de_ptr h = handled (record h { card = record h.card { rx_buffer_ptr = de_ptr } })
  receive_all (suc n) de_ptr h =
      let next = if leb h.card.rx_buffer_count (u16 (de_ptr + 1)) then 0 else u16 (de_ptr + 1) in
      let rest = and_then (receive de_ptr h) (λ t. receive_all n next t) in
      if driver_owns (memory h) h.card.rdes de_ptr
      then rest
      else handled (record h { card = record h.card { rx_buffer_ptr = de_ptr } })

unfoldable pub do_irq_work : Host Card → Handled Card
unfolding receive_all
do_irq_work h =
    receive_all (ether_process_frame Card tx_packet) h.card.rx_buffer_count h.card.rx_buffer_ptr
      (record h { dev = record h.dev { needs_work = 0 } })

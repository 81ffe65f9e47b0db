-- ===== src/Pcnet32/Registers.antt =====
-- pcnet32.c: the card's registers, and the interrupt.
use frog_os.Base.{u32, Bool, true, false, List, [], ◌∷◌, Option, none, some}
use frog_os.Base.{ℕ, ◌+◌, bit_and, bit_or, u16, ◌==◌, if◌then◌else◌, not}
use frog_os.Ports.{Ports}
use frog_os.Network.Host.{Host}
use frog_os.Pcnet32.{Card}

-- The wait for a tick, given what the loop reads of `pit_counter`, of which it compares the low 32 bits
-- with those it read first; whether it ends among these readings.
unfoldable pub wait_from : ℕ → List ℕ → Bool
wait_from first [] = false
wait_from first (r ∷ rs) =
    let rest = wait_from first rs in if u32 r == u32 first then rest else true

unfoldable pub wait_tick : List ℕ → Bool
unfolding wait_from
wait_tick [] = false
wait_tick (first ∷ rs) = wait_from first rs

module _ (ports : Ports) where
  open ports use {State, inportw, inportl, outportw, outportl}

  unfoldable pub dwio_read_csr : ℕ → ℕ → State → ℕ × State
  dwio_read_csr ioaddr index σ =
      inportl (u16 (ioaddr + 0x10)) (outportl (u16 (ioaddr + 0x14)) index σ)

  unfoldable pub dwio_write_csr : ℕ → ℕ → ℕ → State → State
  dwio_write_csr ioaddr index conf σ =
      outportl (u16 (ioaddr + 0x10)) conf (outportl (u16 (ioaddr + 0x14)) index σ)

  unfoldable pub dwio_read_bcr : ℕ → ℕ → State → ℕ × State
  dwio_read_bcr ioaddr index σ =
      inportl (u16 (ioaddr + 0x1c)) (outportl (u16 (ioaddr + 0x14)) index σ)

  unfoldable pub dwio_write_bcr : ℕ → ℕ → ℕ → State → State
  dwio_write_bcr ioaddr index conf σ =
      outportl (u16 (ioaddr + 0x1c)) conf (outportl (u16 (ioaddr + 0x14)) index σ)

  unfoldable pub wio_read_csr : ℕ → ℕ → State → ℕ × State
  wio_read_csr ioaddr index σ =
      inportw (u16 (ioaddr + 0x10)) (outportw (u16 (ioaddr + 0x12)) index σ)

  -- `none` is a wait for the timer that has not ended.
  unfoldable pub pcnet32_reset : ℕ → List ℕ → State → Option State
  unfolding wait_tick
  pcnet32_reset ioaddr readings σ =
      let σ₁ = (inportw (u16 (ioaddr + 0x14)) (inportw (u16 (ioaddr + 0x18)) σ).1).1 in
      if wait_tick readings then some (outportl (u16 (ioaddr + 0x10)) 0 σ₁) else none

  -- The interrupt acknowledges the receive and transmit events and asks for the work to be done.
  unfoldable pub pcnet32_irq_handler : Host Card → State → Host Card × State
  unfolding dwio_read_csr dwio_write_csr
  pcnet32_irq_handler h σ =
      let (csr0, σ₁) = dwio_read_csr h.card.ioaddr 0 σ in
      if not (bit_and csr0 0x600 == 0)
      then (
        record h { dev = record h.dev { needs_work = 1 } },
        dwio_write_csr h.card.ioaddr 0 (bit_or (bit_or csr0 0x200) 0x400) σ₁,
      )
      else (h, σ₁)

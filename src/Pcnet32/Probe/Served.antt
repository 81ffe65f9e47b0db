-- ===== src/Pcnet32/Probe/Served.antt =====
-- After the set-up the driver's handler serves its interrupt line, and the card is started.
use frog_os.Base.{ℕ, ◌+◌, ◌^◌, ◌<◌, ◌≡◌, refl, ◌∙◌, arith, inl, u16, bit_and}
use frog_os.Base.{Bool, true, false, List, length, get_or, get_or-set_self}
use frog_os.Memory.{Mem, load32, store32}
use frog_os.Memory.Laws.{load32-store32_self, load32-store32_ne}
use frog_os.Ports.{Ports}
use frog_os.Irq.{install_irq_handler, handler_of, data_of}
use frog_os.Pcnet32.{Card}
use frog_os.Pcnet32.Registers.{dwio_write_csr}
use frog_os.Pcnet32.Probe.{World, finish_probe}

-- What the Am79C970's data sheet says of the double-word port space at `ioaddr`, in which a write to the
-- address port at 0x14 selects a register, and one to the data port at 0x10 writes the selected one. In
-- register 0, with the bit STOP (4) unset, the bit STRT (2) starts the card, and the bit IENA (0x40)
-- enables its interrupts; STOP stops it and disables them.
pub record HasCard (ports : Ports) (ioaddr : ℕ) : Type 0 where
  pub selected : ports.State → ℕ
  pub started : ports.State → Bool
  pub enabled : ports.State → Bool
  pub selects : (n : ℕ) (σ : ports.State) → selected (ports.outportl (u16 (ioaddr + 0x14)) n σ) ≡ n
  pub starts :
      (v : ℕ) (σ : ports.State)
      → selected σ ≡ 0
      → bit_and v 4 ≡ 0
      → bit_and v 2 ≡ 2
      → started (ports.outportl (u16 (ioaddr + 0x10)) v σ) ≡ true
  pub enables :
      (v : ℕ) (σ : ports.State)
      → selected σ ≡ 0
      → bit_and v 4 ≡ 0
      → bit_and v 0x40 ≡ 0x40
      → enabled (ports.outportl (u16 (ioaddr + 0x10)) v σ) ≡ true
  pub stops :
      (v : ℕ) (σ : ports.State)
      → selected σ ≡ 0
      → bit_and v 4 ≡ 4
      → let τ = ports.outportl (u16 (ioaddr + 0x10)) v σ in
        (started τ ≡ false) × (enabled τ ≡ false)

-- The first handler of the line is the one at `handler`, with its function and its data, and the card
-- is started with its interrupts enabled.
pub record IsServed (ports : Ports) (ioaddr : ℕ) (chip : HasCard ports ioaddr)
    (code netdev handler interrupt : ℕ) (w : World ports) : Type 0 where
  pub line : get_or w.table interrupt 0 ≡ handler
  pub calls : handler_of w.devices.store.bytes handler ≡ code
  pub passes : data_of w.devices.store.bytes handler ≡ netdev
  pub started : chip.started w.machine ≡ true
  pub enabled : chip.enabled w.machine ≡ true

load32-store32_at : (m : Mem) (a b v : ℕ) → b ≡ a → v < 2 ^ 32 → load32 (store32 m a v) b ≡ v
load32-store32_at m a b v e h = rw e (load32-store32_self m a v h)

module _ (ports : Ports) (c : Card) (chip : HasCard ports c.ioaddr) (code netdev priv : ℕ)
    (hw : List ℕ) (w : World ports) where
  pub finish_probe-IsServed :
      code < 2 ^ 32
      → netdev < 2 ^ 32
      → c.interrupt < length w.table
      → IsServed ports c.ioaddr chip code netdev
          (priv + 8)
          c.interrupt
          (finish_probe ports code netdev priv hw c w)
  unfolding finish_probe install_irq_handler dwio_write_csr
  finish_probe-IsServed code_word netdev_word line = record {
    line = get_or-set_self w.table c.interrupt (priv + 8) 0 line;
    calls =
        load32-store32_ne _ (priv + 8 + 8) _ (priv + 8) (inl (omega arith))
        ∙ load32-store32_ne _ (priv + 16) 0 (priv + 8) (inl (omega arith))
        ∙ load32-store32_ne _ (priv + 12) netdev (priv + 8) (inl (omega arith))
        ∙ load32-store32_self _ (priv + 8) code code_word;
    passes =
        load32-store32_ne _ (priv + 8 + 8) _ (priv + 8 + 4) (inl (omega arith))
        ∙ load32-store32_ne _ (priv + 16) 0 (priv + 8 + 4) (inl (omega arith))
        ∙ load32-store32_at _ (priv + 12) (priv + 8 + 4) netdev (omega arith) netdev_word;
    started = chip.starts 0x42 _ (chip.selects 0 _) refl refl;
    enabled = chip.enables 0x42 _ (chip.selects 0 _) refl refl;
  }

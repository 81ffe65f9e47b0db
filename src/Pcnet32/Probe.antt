-- ===== src/Pcnet32/Probe.antt =====
-- pcnet32.c: `probe_pcnet32`, which finds out whether a PCI function is a PCnet card, sets its driver up
-- and starts it. A `pcnet32_dev` has its handler record at the offset 8 and the card's initialisation
-- block at 32, and 96 bytes; its other fields are a `Card`. `code` is the address of the interrupt
-- handler, `netdev` the one of the device's entry of `net_devs`. What is printed is left out.
pub mod Rings
pub mod Layout
pub mod Finish
pub mod Reset
pub mod Served
pub mod SetUp
pub mod Runs
use frog_os.Base.{ℕ, zero, suc, ◌+◌, ◌*◌, bit_and, bit_or, u16, u32, ◌==◌, not, if◌then◌else◌, ltb}
use frog_os.Base.{
  ◌<<<◌, ◌>>>◌, ◌||◌, Bool, true, false, List, [], ◌∷◌, set, get_or, Option, none, some,
}
use frog_os.Ports.{Ports}
use frog_os.Memory.{Mem, store8, store16, store32, memset, copy_in}
use frog_os.Paging.{get_physaddr}
use frog_os.Alloc.{Store, alloc, returns, out_of_fuel}
use frog_os.Irq.{Bus, Irqs, num_irqs, install_irq_handler}
use frog_os.Pci.{PciDev, pci_adjust}
use frog_os.Network.Devices.{Devices, added, null, no_device, alloc_netdev}
use frog_os.Network.Devices
use frog_os.Pcnet32.{Card, pcnet32_buffer_size}
use frog_os.Pcnet32.Registers.{dwio_read_csr, dwio_write_csr, pcnet32_reset}
use frog_os.Pcnet32.Ring.{initialize_de}

-- The two loops over `pcnet32_initialize_de`, at the descriptor `i` with the rounds that are left.
unfoldable pub initialize_all : ℕ → ℕ → Bool → Card → Mem → Mem
unfolding initialize_de
initialize_all zero i is_tx c m = m
initialize_all (suc n) i is_tx c m =
    initialize_all n (u16 (i + 1)) is_tx c (initialize_de c i is_tx m)

-- The block that the card reads its set-up from.
unfoldable pub write_card_reg : ℕ → List ℕ → Card → Mem → Mem
write_card_reg reg hw_addr c m =
    let m₁ = store16 m reg 0 in
    let m₂ = store8 m₁ (reg + 2) 0x60 in
    let m₃ = store8 m₂ (reg + 3) 0x40 in
    let m₄ = copy_in m₃ (reg + 4) hw_addr in
    let m₅ = store16 m₄ (reg + 10) 0 in
    let m₆ = memset m₅ (reg + 12) 0xff 8 in
    let m₇ = store32 m₆ (reg + 20) (get_physaddr m₆ c.rdes) in
    store32 m₇ (reg + 24) (get_physaddr m₇ c.tdes)

module _ (ports : Ports) where
  open ports use {State, inportb}

  abbrev pub bytes_bus : Bus
  bytes_bus = record { State = State; inportb = ports.inportb; outportb = ports.outportb }

  -- The table of devices with the memory, the chains of interrupt handlers, the ports and the driver.
  pub record World : Type 0 where
    pub devices : Devices
    pub table : List ℕ
    pub flag : Bool
    pub machine : State
    pub card : Option Card

  -- `stuck` is a walk of `alloc` that has not ended, `waiting` a wait for the timer's tick that has not,
  -- and `overrun` a handler put behind the end of `irq_handlers`.
  pub data Probed : Type 0 where
    probed : World → Probed
    stuck waiting overrun : Probed

  -- What the installation of a handler on a line comes to.
  abbrev pub on_line : ℕ → World → Probed
  on_line interrupt w = if ltb interrupt num_irqs then probed w else overrun

  -- An allocation, and the ways on with the block and without.
  abbrev pub with_block : ℕ → Store → (ℕ → Store → Probed) → (Store → Probed) → Probed
  with_block n s found err = elim (alloc n 1 s) [
    | out_of_fuel ↦ stuck
    | returns p s' ↦ if p == 0 then err s' else found p s'
  ]

  unfoldable pub read_chip_version : ℕ → State → ℕ × State
  unfolding dwio_read_csr
  read_chip_version ioaddr σ =
      let (low, σ₁) = dwio_read_csr ports ioaddr 88 σ in
      let (high, σ₂) = dwio_read_csr ports ioaddr 89 σ₁ in (bit_or low (u32 (high <<< 16)), σ₂)

  unfoldable pub read_hw_addr : ℕ → ℕ → ℕ → State → List ℕ × State
  read_hw_addr zero i ioaddr σ = ([], σ)
  read_hw_addr (suc n) i ioaddr σ =
      let (b, σ₁) = inportb (u16 (ioaddr + i)) σ in
      let (bs, σ₂) = read_hw_addr n (i + 1) ioaddr σ₁ in (b ∷ bs, σ₂)

  unfoldable pub set_swstyle : ℕ → State → State
  unfolding dwio_read_csr dwio_write_csr
  set_swstyle ioaddr σ =
      let (csr58, σ₁) = dwio_read_csr ports ioaddr 58 σ in
      dwio_write_csr ports ioaddr 58 (bit_or (bit_and csr58 0xfffffff0) 2) σ₁

  -- The wait for the initialisation tests `csr & (0x100==0)`, which is 0 at the first read.
  unfoldable pub start_card : ℕ → ℕ → State → State
  unfolding dwio_read_csr dwio_write_csr
  start_card ioaddr init_block σ =
      let σ₁ = dwio_write_csr ports ioaddr 1 (bit_and init_block 0xffff) σ in
      let σ₂ = dwio_write_csr ports ioaddr 2 (init_block >>> 16) σ₁ in
      let σ₃ = dwio_write_csr ports ioaddr 4 0x915 σ₂ in
      let σ₄ = dwio_write_csr ports ioaddr 0 1 σ₃ in
      let (csr0, σ₅) = dwio_read_csr ports ioaddr 0 σ₄ in dwio_write_csr ports ioaddr 0 4 σ₅

  -- The handler record, its installation on a line of the table, and the card's start.
  unfoldable pub finish_probe : ℕ → ℕ → ℕ → List ℕ → Card → World → World
  unfolding initialize_all write_card_reg start_card dwio_write_csr
  finish_probe code netdev priv hw_addr c w =
      let m₁ = initialize_all c.rx_buffer_count 0 false c w.devices.store.bytes in
      let m₂ = initialize_all c.tx_buffer_count 0 true c m₁ in
      let m₃ = write_card_reg (priv + 32) hw_addr c m₂ in
      let σ = start_card c.ioaddr (get_physaddr m₃ (priv + 32)) w.machine in
      let m₄ = store32 m₃ (priv + 8) code in
      let m₅ = store32 m₄ (priv + 12) netdev in
      let m₆ = store32 m₅ (priv + 16) 0 in
      let irqs : Irqs bytes_bus = record {
        table = w.table;
        bytes = m₆;
        ports = σ;
        flag = w.flag;
      } in
      let s = install_irq_handler bytes_bus c.interrupt (priv + 8) irqs in
      record {
        devices = record w.devices {
          store = record { high_mem = w.devices.store.high_mem; bytes = s.bytes };
        };
        table = s.table;
        flag = s.flag;
        machine = dwio_write_csr ports c.ioaddr 0 0x42 s.ports;
        card = some c;
      }

  -- The buffers and the descriptors, and the rest of the set-up behind them.
  unfoldable pub alloc_rings : ℕ → ℕ → ℕ → List ℕ → Card → World → Probed
  unfolding finish_probe
  alloc_rings code netdev priv hw_addr c w =
      let at = λ (s : Store). record w { devices = record w.devices { store = s } } in
      let err = λ (s : Store). probed (at s) in
      with_block (64 * pcnet32_buffer_size) w.devices.store
        (λ rx s.
          let cleared : Store = record {
            high_mem = s.high_mem;
            bytes = memset s.bytes rx 0 (64 * pcnet32_buffer_size);
          } in
          with_block (16 * pcnet32_buffer_size) cleared
            (λ tx s₂.
              with_block (16 * 64) s₂
                (λ rdes s₃.
                  with_block (16 * 16) s₃
                    (λ tdes s₄. on_line c.interrupt (
                      finish_probe code netdev priv hw_addr
                        (record c { rx_buffers = rx; tx_buffers = tx; rdes = rdes; tdes = tdes })
                        (at s₄)))
                    err)
                err)
            err)
        err

  -- The probe after the reset.
  unfoldable pub probe_chip : ℕ → ℕ → PciDev → ℕ → ℕ → World → Probed
  unfolding read_chip_version read_hw_addr set_swstyle alloc_rings
  probe_chip code netdev pcidev ioaddr interrupt w =
      let (chip_version, σ) = read_chip_version ioaddr w.machine in
      let kind = chip_version >>> 12 in
      let (hw_addr, σ₁) = read_hw_addr 6 0 ioaddr (pci_adjust ports pcidev σ) in
      let c : Card = record {
        ioaddr = ioaddr;
        interrupt = interrupt;
        rx_buffer_ptr = 0;
        tx_buffer_ptr = 0;
        rx_buffer_count = 64;
        tx_buffer_count = 16;
        rx_buffers = 0;
        tx_buffers = 0;
        rdes = 0;
        tdes = 0;
        mii = if kind == 0x2625 then 1 else 0;
        fdx = 1;
      } in
      if not (bit_and chip_version 0xfff == 3)
      then probed (record w { machine = σ })
      else elim (alloc_netdev 96 w.devices) [
        | Devices.stuck ↦ stuck
        | null d ↦ probed (record w { devices = d; machine = σ })
        | added dev_no d ↦
            let dev = get_or d.net_devs dev_no no_device in
            let d' = record d {
              net_devs = set d.net_devs dev_no (record dev { hw_addr = hw_addr });
            } in
            let found =
              alloc_rings code netdev dev.priv hw_addr c
                (record w { devices = d'; machine = set_swstyle ioaddr σ₁ }) in
            if (kind == 0x2621) || (kind == 0x2625)
            then found
            else probed (record w { devices = d; machine = σ })
      ]

  -- `readings` is what the reset reads of the timer's counter.
  unfoldable pub probe_pcnet32 : ℕ → ℕ → PciDev → ℕ → ℕ → List ℕ → World → Probed
  unfolding pcnet32_reset probe_chip
  probe_pcnet32 code netdev pcidev ioaddr interrupt readings w =
      elim (pcnet32_reset ports ioaddr readings w.machine) [
        | none ↦ waiting
        | some σ ↦ probe_chip code netdev pcidev ioaddr interrupt (record w { machine = σ })
      ]

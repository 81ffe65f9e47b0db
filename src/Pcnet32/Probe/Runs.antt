-- ===== src/Pcnet32/Probe/Runs.antt =====
-- After probe_pcnet32 what do_irq_work relies on holds, and the driver serves the card's interrupts.
use frog_os.Base.{ℕ}
use frog_os.Base.{List, get_or, set}
use frog_os.Base.{◌==◌, ◌>>>◌, if◌then◌else◌}
use frog_os.Ports.{Ports}
use frog_os.Pci.{PciDev, pci_adjust}
use frog_os.Network.Devices.{Devices, no_device}
use frog_os.Pcnet32.{Card}
use frog_os.Pcnet32.Probe.{World}
use frog_os.Pcnet32.Probe.Reset.{after_reset}
use frog_os.Pcnet32.Probe.{read_chip_version, read_hw_addr, set_swstyle}

-- What the driver reads of the chip, and the card that it fills in.
abbrev pub chip : (ports : Ports) → ℕ → World ports → ℕ × ports.State
chip ports ioaddr w = read_chip_version ports ioaddr (after_reset ports ioaddr w.machine)

abbrev pub new_card : ℕ → ℕ → ℕ → Card
new_card ioaddr interrupt version = record {
  ioaddr = ioaddr;
  interrupt = interrupt;
  rx_buffer_ptr = 0;
  tx_buffer_ptr = 0;
  rx_buffer_count = 64;
  tx_buffer_count = 16;
  rx_buffers = 0;
  tx_buffers = 0;
  rdes = 0;
  tdes = 0;
  mii = if (version >>> 12) == 0x2625 then 1 else 0;
  fdx = 1;
}

module _ (ports : Ports) (limit code netdev : ℕ) (pcidev : PciDev) (ioaddr interrupt : ℕ)
    (readings : List ℕ) (w : World ports) where
  -- The world in which the rings are allocated.
  abbrev with_netdev : Devices → World ports
  with_netdev d =
      let (version, σ) = chip ports ioaddr w in
      let (hw, σ₁) = read_hw_addr ports 6 0 ioaddr (pci_adjust ports pcidev σ) in
      let n = w.devices.net_num_devs in
      let dev = get_or d.net_devs n no_device in
      record w {
        devices = record d { net_devs = set d.net_devs n (record dev { hw_addr = hw }) };
        machine = set_swstyle ports ioaddr σ₁;
      }

-- ===== src/Pci.antt =====
-- pci.c: the configuration space, read through the ports 0xCF8 and 0xCFC.
pub mod Address
pub mod Scan
mod Tests
use frog_os.Base.{ℕ, bit_and, bit_or, u8, ◌<<<◌, ◌>>>◌, ◌*◌}
use frog_os.Ports.{Ports}

-- A function that the enumeration has found.
pub record PciDev : Type 0 where
  pub bus : ℕ
  pub device : ℕ
  pub function : ℕ
  pub vendor_id : ℕ
  pub device_id : ℕ

unfoldable pub config_address : ℕ → ℕ → ℕ → ℕ → ℕ
config_address bus slot func offset =
    bit_or (bit_or (bit_or (bit_or (bus <<< 16) (slot <<< 11)) (func <<< 8)) (bit_and offset 0xfc))
      0x80000000

module _ (ports : Ports) where
  open ports use {State, inportl, outportl}

  unfoldable pub config_read_dword : ℕ → ℕ → ℕ → ℕ → State → ℕ × State
  config_read_dword bus slot func offset σ =
      inportl 0xcfc (outportl 0xcf8 (config_address bus slot func offset) σ)

  unfoldable pub config_read_word : ℕ → ℕ → ℕ → ℕ → State → ℕ × State
  config_read_word bus slot func offset σ =
      let (v, σ') = inportl 0xcfc (outportl 0xcf8 (config_address bus slot func offset) σ) in
      (bit_and (v >>> (bit_and offset 2 * 8)) 0xffff, σ')

  unfoldable pub config_write_dword : ℕ → ℕ → ℕ → ℕ → ℕ → State → State
  config_write_dword bus slot func offset conf σ =
      outportl 0xcfc conf (outportl 0xcf8 (config_address bus slot func offset) σ)

  unfoldable pub pci_adjust : PciDev → State → State
  unfolding config_read_dword config_write_dword
  pci_adjust dev σ =
      let (conf, σ') = config_read_dword dev.bus dev.device dev.function 4 σ in
      config_write_dword dev.bus dev.device dev.function 4 (bit_or conf 7) σ'

  unfoldable pub get_vendor_id : ℕ → ℕ → ℕ → State → ℕ × State
  get_vendor_id bus slot function σ = config_read_word bus slot function 0 σ

  unfoldable pub get_device_id : ℕ → ℕ → ℕ → State → ℕ × State
  get_device_id bus slot function σ = config_read_word bus slot function 2 σ

  unfoldable pub get_header_type : ℕ → ℕ → ℕ → State → ℕ × State
  get_header_type bus slot function σ =
      let (v, σ') = config_read_word bus slot function 0xe σ in (bit_and v 0xff, σ')

  unfoldable pub get_base_class : ℕ → ℕ → ℕ → State → ℕ × State
  get_base_class bus slot function σ =
      let (v, σ') = config_read_word bus slot function 0xa σ in (u8 (v >>> 8), σ')

  unfoldable pub get_sub_class : ℕ → ℕ → ℕ → State → ℕ × State
  get_sub_class bus slot function σ =
      let (v, σ') = config_read_word bus slot function 0xa σ in (bit_and v 0xff, σ')

  unfoldable pub get_secondary_bus : ℕ → ℕ → ℕ → State → ℕ × State
  get_secondary_bus bus slot function σ =
      let (v, σ') = config_read_word bus slot function 0x18 σ in (u8 (v >>> 8), σ')

  unfoldable pub get_prog_if : ℕ → ℕ → ℕ → State → ℕ × State
  get_prog_if bus slot function σ =
      let (v, σ') = config_read_word bus slot function 0x8 σ in (u8 (v >>> 8), σ')

-- ===== src/Pci/Scan.antt =====
-- pci.c: the enumeration of the buses. The table `pcidevs` of 20 entries is the list of the entries
-- written so far, and `numdevs` is its length; `overrun` is a write behind the table's end. The
-- driver's `probe_pcnet32`, which Pcnet32/Probe models with the memory that it changes, is here the
-- parameter `probe` on the state of the machine: `none` is a call that does not come back, and `stuck` an
-- enumeration that waits for it. What `printFunction` prints is left out, but not its reads.
pub mod Found
pub mod Steps
pub mod Adds
pub mod Function
pub mod Refine
use frog_os.Base.{ℕ, zero, suc, ◌+◌, ◌*◌, bit_and, u8, u16, ltb, leb, ◌==◌, not, ◌&&◌, ◌||◌}
use frog_os.Base.{Bool, Option, none, some, if◌then◌else◌, List, [], ◌∷◌, ◌++◌, length}
use frog_os.Ports.{Ports}
use frog_os.Pci.{PciDev, config_read_word, config_read_dword, get_vendor_id, get_device_id}
use frog_os.Pci.{get_header_type, get_base_class, get_sub_class, get_secondary_bus, get_prog_if}

abbrev pub max_devices : ℕ
max_devices = 20

pub record Scan (ports : Ports) : Type 0 where
  pub entries : List PciDev
  pub machine : ports.State

pub data Outcome (ports : Ports) : Type 0 where
  done : Scan ports → Outcome ports
  overrun out_of_fuel stuck : Outcome ports

abbrev pub and_then : {ports : Ports} → Outcome ports → (Scan ports → Outcome ports) → Outcome ports
and_then (done s) k = k s
and_then overrun k = overrun
and_then out_of_fuel k = out_of_fuel
and_then stuck k = stuck

-- The cards that the driver is called for.
abbrev pub is_pcnet32 : PciDev → Bool
is_pcnet32 dev =
    (dev.vendor_id == 0x1022) && ((dev.device_id == 0x2000) || (dev.device_id == 0x2001))

module _ (ports : Ports) where
  open ports use {State}

  -- The reads of the base address registers.
  unfoldable pub print_bars : ℕ → ℕ → ℕ → ℕ → ℕ → State → State
  print_bars zero bar bus device function σ = σ
  print_bars (suc n) bar bus device function σ =
      print_bars n (bar + 1) bus device function
        (config_read_dword ports bus device function (0x10 + bar * 4) σ).1

  unfoldable pub print_function : ℕ → ℕ → ℕ → State → State
  print_function bus device function σ =
      let (vendor_id, σ₁) = get_vendor_id ports bus device function σ in
      let (device_id, σ₂) = get_device_id ports bus device function σ₁ in
      let (base_class, σ₃) = get_base_class ports bus device function σ₂ in
      let (sub_class, σ₄) = get_sub_class ports bus device function σ₃ in
      let (prog_if, σ₅) = get_prog_if ports bus device function σ₄ in
      let (subsystem_vendor_id, σ₆) = config_read_word ports bus device function 0x2c σ₅ in
      let (subsystem_id, σ₇) = config_read_word ports bus device function 0x2e σ₆ in
      let (interrupt, σ₈) = config_read_word ports bus device function 0x3c σ₇ in
      print_bars 6 0 bus device function σ₈

-- The functions that call each other, given `probe_pcnet32` and the call of `checkBus`.
module _ (ports : Ports) (probe : PciDev → ℕ → ℕ → ports.State → Option ports.State) where
  open ports use {State}

  -- The two tests on the vendor, with the call of the driver.
  unfoldable pub probe_function : PciDev → ℕ → State → Option State
  probe_function dev base_class σ =
      let shown = print_function ports dev.bus dev.device dev.function σ in
      let σ₁ = if (dev.vendor_id == 0x8086) && (base_class == 2) then shown else σ in
      let shown₁ = print_function ports dev.bus dev.device dev.function σ₁ in
      let (line, σ₂) = config_read_word ports dev.bus dev.device dev.function 0x3c shown₁ in
      let (base, σ₃) = config_read_word ports dev.bus dev.device dev.function 0x10 σ₂ in
      if is_pcnet32 dev then probe dev (bit_and base 0xfffc) (bit_and line 0xff) σ₃ else some σ₁

  module _ (visit : ℕ → Scan ports → Outcome ports) where
    -- The entry of the table, and the bus behind a bridge, after the driver's part.
    unfoldable pub add_function : Scan ports → PciDev → ℕ → ℕ → Option State → Outcome ports
    add_function s dev base_class sub_class none =
        if leb max_devices (length s.entries) then overrun else stuck
    add_function s dev base_class sub_class (some σ) =
        let (secondary_bus, σ') = get_secondary_bus ports dev.bus dev.device dev.function σ in
        let entries = s.entries ++ (dev ∷ []) in
        if leb max_devices (length s.entries)
        then overrun
        else if (base_class == 6) && (sub_class == 4)
        then visit secondary_bus (record { entries = entries; machine = σ' })
        else done (record { entries = entries; machine = σ })

    unfoldable pub check_function : ℕ → ℕ → ℕ → Scan ports → Outcome ports
    unfolding probe_function
    check_function bus device function s =
        let (base_class, σ₁) = get_base_class ports bus device function s.machine in
        let (sub_class, σ₂) = get_sub_class ports bus device function σ₁ in
        let (vendor_id, σ₃) = get_vendor_id ports bus device function σ₂ in
        let (device_id, σ₄) = get_device_id ports bus device function σ₃ in
        let dev : PciDev = record {
          bus = bus;
          device = device;
          function = function;
          vendor_id = vendor_id;
          device_id = device_id;
        } in
        add_function s dev base_class sub_class (probe_function dev base_class σ₄)

    -- The loop over the functions from 1 on.
    unfoldable pub check_functions : ℕ → ℕ → ℕ → ℕ → Scan ports → Outcome ports
    unfolding check_function
    check_functions zero function bus device s = done s
    check_functions (suc n) function bus device s =
        let (vendor_id, σ) = get_vendor_id ports bus device function s.machine in
        let s' = record s { machine = σ } in
        and_then (if vendor_id == 0xffff then done s' else check_function bus device function s')
          (λ t. check_functions n (function + 1) bus device t)

    unfoldable pub check_device : ℕ → ℕ → Scan ports → Outcome ports
    unfolding check_function check_functions
    check_device bus device s =
        let (vendor_id, σ) = get_vendor_id ports bus device 0 s.machine in
        let s' = record s { machine = σ } in
        if vendor_id == 0xffff
        then done s'
        else and_then (check_function bus device 0 s') (λ t.
          let (header_type, σ') = get_header_type ports bus device 0 t.machine in
          let t' = record t { machine = σ' } in
          if bit_and header_type 0x80 == 0 then done t' else check_functions 7 1 bus device t')

    -- The loop over the devices of a bus.
    unfoldable pub check_devices : ℕ → ℕ → ℕ → Scan ports → Outcome ports
    unfolding check_device
    check_devices zero device bus s = done s
    check_devices (suc n) device bus s =
        and_then (check_device bus device s) (λ t. check_devices n (device + 1) bus t)

  unfoldable pub check_bus : ℕ → ℕ → Scan ports → Outcome ports
  unfolding check_devices
  check_bus zero bus s = out_of_fuel
  check_bus (suc fuel) bus s = check_devices (check_bus fuel) 32 0 bus s

  -- The loop of `checkAllBuses`, which runs while the function is above 8.
  unfoldable pub host_functions : ℕ → ℕ → Scan ports → Outcome ports
  host_functions zero function s = out_of_fuel
  host_functions (suc fuel) function s =
      let (vendor_id, σ) = get_vendor_id ports 0 0 function s.machine in
      let s' = record s { machine = σ } in
      let rest =
        and_then (check_bus 256 function s') (λ t. host_functions fuel (u8 (function + 1)) t) in
      if ltb 8 function then (if vendor_id == 0xffff then rest else done s') else done s

  -- Buses are nested at most 256 deep where a bridge leads to a bus of a higher number.
  unfoldable pub check_all_buses : Scan ports → Outcome ports
  unfolding check_bus host_functions
  check_all_buses s =
      let (header_type, σ) = get_header_type ports 0 0 0 s.machine in
      let s' = record s { machine = σ } in
      if bit_and header_type 0x80 == 0 then check_bus 256 0 s' else host_functions 256 0 s'

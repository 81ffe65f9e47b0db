-- ===== src/Network/Devices.antt =====
-- net.c: the table of network devices. `do_work` is the driver's function, a parameter.
pub mod Table
use frog_os.Base.{ℕ, zero, suc, ◌+◌, ◌==◌, ltb, not, u16, if◌then◌else◌, List, [], set, get_or}
use frog_os.Base.{replicate}
use frog_os.Alloc.{Store, alloc, returns, out_of_fuel}
use frog_os.Network.Host.{Device}

abbrev pub net_num_devs_max : ℕ
net_num_devs_max = 16

-- The table, the number of devices in it, and the allocator's state.
pub record Devices : Type 0 where
  pub net_devs : List Device
  pub net_num_devs : ℕ
  pub store : Store

-- A device of which every byte is 0.
abbrev pub no_device : Device
no_device = record {
  dev_no = 0;
  hw_addr = replicate 6 0;
  ipv4_addr = 0;
  ipv4_netmask = 0;
  needs_work = 0;
  priv = 0;
  rx_packets = 0;
  tx_packets = 0;
}

-- The number of the new device, or a null pointer; `stuck` is a walk of `alloc` that has not ended.
pub data Added : Type 0 where
  added : ℕ → Devices → Added
  null : Devices → Added
  stuck : Added

unfoldable pub alloc_netdev : ℕ → Devices → Added
alloc_netdev n d =
    let add = λ (priv : ℕ) (s : Store). added d.net_num_devs (record {
      net_devs =
          set d.net_devs d.net_num_devs (record no_device { priv = priv; dev_no = d.net_num_devs });
      net_num_devs = u16 (d.net_num_devs + 1);
      store = s;
    }) in
    if net_num_devs_max == d.net_num_devs then null d else elim (alloc n 1 d.store) [
      | out_of_fuel ↦ stuck
      | returns priv s ↦ if priv == 0 then null (record d { store = s }) else add priv s
    ]

unfoldable pub net_ifconfig : ℕ → ℕ → ℕ → Devices → Devices
net_ifconfig dev_no addr netmask d =
    let dev = get_or d.net_devs dev_no no_device in
    let dev' = record dev { ipv4_addr = addr; ipv4_netmask = netmask } in
    if ltb dev_no d.net_num_devs then record d { net_devs = set d.net_devs dev_no dev' } else d

-- `do_work` of the device `i`, on the devices and all that the drivers keep.
module _ (World : Type 0) (devices : World → Devices) (do_work : ℕ → World → World) where
  -- The loop from the device `i` on, with the rounds that are left.
  unfoldable pub process_from : ℕ → ℕ → World → World
  process_from zero i w = w
  process_from (suc n) i w =
      let dev = get_or (devices w).net_devs i no_device in
      let w' = if dev.needs_work == 0 then w else do_work i w in
      let rest = process_from n (u16 (i + 1)) w' in
      if ltb i (devices w).net_num_devs then rest else w

  unfoldable pub net_process : World → World
  unfolding process_from
  net_process w = process_from net_num_devs_max 0 w

-- ===== src/Network/Devices/Table.antt =====
-- Adding a device to the table.
use frog_os.Base.{ℕ, ◌+◌, ◌^◌, ◌≤◌, ◌<◌, ◌≡◌, ◌≢◌, ◌⊎◌, refl, ◌∙◌, sym, arith, inl, inr}
use frog_os.Base.{length, set, get_or, get_or-set_self, get_or-set_ne, length-set}
use frog_os.Base.{Bool-cases, ◌==◌, u16, false}
use frog_os.Alloc.Bump.{IsBump, units, alloc_bump}
use frog_os.Alloc.{Store, alloc, returns}
use frog_os.Network.Devices.{Devices, added, null, no_device, alloc_netdev}
use frog_os.Network.Devices.{net_num_devs_max}

-- A table of 16 devices, some of them in use, over one free block.
pub record IsTable (limit : ℕ) (d : Devices) : Type 0 where
  pub entries : length d.net_devs ≡ 16
  pub used : d.net_num_devs ≤ 16
  pub bump : IsBump limit d.store

-- A further device: it is the next of the table, within its 16 entries, with `n` bytes of its own and
-- all else 0; the other entries are as they were.
pub record IsAdded (limit n : ℕ) (d d' : Devices) : Type 0 where
  pub within : d.net_num_devs < 16
  pub count : d'.net_num_devs ≡ d.net_num_devs + 1
  pub device :
      get_or d'.net_devs d.net_num_devs no_device
      ≡ record no_device { priv = d.store.high_mem; dev_no = d.net_num_devs }
  pub others :
      (i : ℕ) → i ≢ d.net_num_devs → get_or d'.net_devs i no_device ≡ get_or d.net_devs i no_device
  pub own : d'.store.high_mem ≡ d.store.high_mem + units n
  pub table : IsTable limit d'

-- The table with a further device, and the store that is left.
abbrev pub with_device : Devices → Store → Devices
with_device d s = record {
  net_devs =
      set d.net_devs d.net_num_devs
        (record no_device { priv = d.store.high_mem; dev_no = d.net_num_devs });
  net_num_devs = u16 (d.net_num_devs + 1);
  store = s;
}

-- The device is added when its bytes are given out.
pub with_device-IsAdded :
    (limit n : ℕ) (d : Devices) (s : Store)
    → IsTable limit d
    → d.net_num_devs < 16
    → alloc n 1 d.store ≡ returns d.store.high_mem s
    → s.high_mem ≡ d.store.high_mem + units n
    → IsBump limit s
    → (alloc_netdev n d ≡ added d.net_num_devs (with_device d s))
      × IsAdded limit n d (with_device d s)
unfolding alloc_netdev
with_device-IsAdded limit n d s v lt e next b =
    let free : (net_num_devs_max == d.net_num_devs) ≡ false = ground arith in
    let on : (d.store.high_mem == 0) ≡ false = ground (arith, v.bump.start) in
    let dev = record no_device { priv = d.store.high_mem; dev_no = d.net_num_devs } in
    (
      rw (free, e, on) refl,
      record {
        within = lt;
        count = omega arith;
        device = get_or-set_self d.net_devs d.net_num_devs dev no_device (omega (arith, v.entries));
        others =
            λ i other. get_or-set_ne d.net_devs d.net_num_devs i dev no_device (λ h. other (sym h));
        own = next;
        table = record {
          entries = length-set d.net_devs d.net_num_devs dev ∙ v.entries;
          used = omega arith;
          bump = b;
        };
      },
    )

-- From a table in order, `alloc_netdev` of at most 2 ^ 32 - 16 bytes adds a device, when the table has
-- an entry left and the free block has room; if not, it returns the null pointer and changes nothing.
pub alloc_netdev-IsAdded :
    (limit n : ℕ) (d : Devices)
    → IsTable limit d
    → n + 16 ≤ 2 ^ 32
    → ((d' : Devices) × (alloc_netdev n d ≡ added d.net_num_devs d') × IsAdded limit n d d')
      ⊎ (((d.net_num_devs ≡ 16) ⊎ (limit ≤ d.store.high_mem + units n))
          × (alloc_netdev n d ≡ null d))
unfolding alloc_netdev
alloc_netdev-IsAdded limit n d v hn = elim (Bool-cases (net_num_devs_max == d.net_num_devs)) [
  | inl full ↦ inr (inl (ground arith), rw full refl)
  | inr free ↦ elim (alloc_bump limit d.store v.bump n 0 (omega arith) hn) [
    | inr (no_room, e) ↦ inr (inr no_room, rw (free, e) refl)
    | inl (room, (s, e, next, b, same)) ↦
        let ne : d.net_num_devs ≢ 16 = ground arith in
        let (e', add) = with_device-IsAdded limit n d s v (omega (arith, v.used)) e next b in
        inl (with_device d s, e', add)
  ]
]

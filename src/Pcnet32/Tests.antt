-- ===== src/Pcnet32/Tests.antt =====
-- The rings' theorems at concrete cards.
use frog_os.Base.{◌≡◌, ◌⊎◌, refl, arith, true, false, [], ◌∷◌}
use frog_os.Base.{zero, suc}
use frog_os.Memory.{Mem, copy_in, load32, store8, store16, store32}
use frog_os.Memory.Laws.{IsBytes, store8-IsBytes, store16-IsBytes, store32-IsBytes}
use frog_os.Memory.Frame.{copy_in-IsBytes}
use frog_os.Network.Host.{Host, handled, memory}
use frog_os.Pcnet32.{Card}
use frog_os.Base.{ℕ, ◌%◌, ◌==◌, if◌then◌else◌, replicate, none}
use frog_os.Ports.{Ports}
use frog_os.Pci.{PciDev}
use frog_os.Network.Devices.{no_device}
use frog_os.Base.{◌&&◌, List}
use frog_os.Pcnet32.Probe.{World}
use frog_os.Pcnet32.Ring.{driver_owns, tx_packet, do_irq_work}
use frog_os.Pcnet32.Ring.Transmit.{IsSendable}
use frog_os.Pcnet32.Ring.Sent.{IsSent, tx_packet-IsSent}
use frog_os.Pcnet32.Ring.Drained.{IsDrained, AllFit}
use frog_os.Pcnet32.Work.{IsPlaced, IsRunning}
use frog_os.Pcnet32.Work.Done.{do_irq_work-IsDrained}

-- Two descriptors of each kind; the driver owns the first of each.
abbrev card : Card
card = record {
  ioaddr = 0xc000;
  interrupt = 11;
  rx_buffer_ptr = 0;
  tx_buffer_ptr = 0;
  rx_buffer_count = 2;
  tx_buffer_count = 2;
  rx_buffers = 0x10000;
  tx_buffers = 0x20000;
  rdes = 0x30000;
  tdes = 0x31000;
  mii = 0;
  fdx = 1;
}

-- A free block from 0x100000 on; in the first receive buffer an ARP request for 192.168.201.77, of 60
-- bytes and a checksum; the second receive descriptor is the card's.
abbrev bytes : Mem
bytes =
    let free = store32 (store32 (λ x. 0) 0x100000 0x100000) 0x100004 0 in
    let ring = store8 (store16 free 0x30008 64) 0x30017 0x80 in
    copy_in ring 0x10006 (
      0x02 ∷ 0x00 ∷ 0x00 ∷ 0x00 ∷ 0x00 ∷ 0x01 ∷ 0x08 ∷ 0x06 ∷ 0x00 ∷ 0x01 ∷ 0x08 ∷ 0x00 ∷ 6 ∷ 4
      ∷ 0x00 ∷ 0x01 ∷ 0x02 ∷ 0x00 ∷ 0x00 ∷ 0x00 ∷ 0x00 ∷ 0x01 ∷ 192 ∷ 168 ∷ 201 ∷ 1 ∷ 0 ∷ 0 ∷ 0 ∷ 0
      ∷ 0 ∷ 0 ∷ 192 ∷ 168 ∷ 201 ∷ 77 ∷ [])

abbrev host : Host Card
host = record {
  net = record { buffers = 0; store = record { high_mem = 0x100000; bytes = bytes } };
  dev = record {
    dev_no = 0;
    hw_addr = 0x52 ∷ 0x54 ∷ 0 ∷ 0x12 ∷ 0x34 ∷ 0x56 ∷ [];
    ipv4_addr = 0x4dc9a8c0;
    ipv4_netmask = 0x00ffffff;
    needs_work = 1;
    priv = 0;
    rx_packets = 0;
    tx_packets = 0;
  };
  card = card;
}

host-IsBytes : IsBytes (memory host)
host-IsBytes = copy_in-IsBytes _ 0x10006 _ (
    store8-IsBytes _ 0x30017 0x80 (
      store16-IsBytes _ 0x30008 64 (
        store32-IsBytes _ 0x100004 0
          (store32-IsBytes (λ x. 0) 0x100000 0x100000 (λ x. omega arith)))))

frame-IsSendable : IsSendable card 0x40000 42
frame-IsSendable = record {
  slot = omega arith;
  count = omega arith;
  positive = omega arith;
  fits = omega arith;
  rings_apart = omega arith;
  frame_off_buffers = omega arith;
  frame_off_descriptors = omega arith;
}

tx_packet-IsSent_example :
    ((driver_owns (memory host) 0x31000 0 ≡ true)
      × ((h' : Host Card) × (tx_packet 0x40000 42 host ≡ (1, h')) × IsSent host 0x40000 42 h'))
    ⊎ ((driver_owns (memory host) 0x31000 0 ≡ false) × (tx_packet 0x40000 42 host ≡ (0, host)))
tx_packet-IsSent_example =
    tx_packet-IsSent 0x40000 42 host host-IsBytes (omega arith) frame-IsSendable

-- Both rings lie between 0x10000 and 0x31020, in front of the free block.
card-IsPlaced : IsPlaced 0x10000 0x31020 card
card-IsPlaced = record {
  ring = record { count = omega arith; below = omega arith; apart = omega arith };
  tx_count = omega arith;
  rdes_in = omega arith;
  rx_in = omega arith;
  tdes_in = omega arith;
  tx_in = omega arith;
  tx_apart = omega arith;
  tdes_apart = omega arith;
  buffers_apart = omega arith;
}

host-IsRunning : IsRunning 0x200000 0x10000 0x31020 card host
unfolding load32 store32 store16 store8 copy_in
host-IsRunning = (
  [],
  [],
  record {
    net = record {
      net = record { pool = refl; bump = omega arith; layout = tt };
      off_held = tt;
      off_free = tt;
      below = omega arith;
      bytes = host-IsBytes;
    };
    place = 0;
    place_in = omega arith;
    card = refl;
    address = refl;
  },
)

host-AllFit : AllFit card host
unfolding driver_owns store8 store16 store32 copy_in
host-AllFit zero lt own = omega arith
host-AllFit (suc zero) lt own = absurd (cc)
host-AllFit (suc (suc i)) lt own = absurd (omega arith)

do_irq_work-IsDrained_example :
    (t : Host Card) × (do_irq_work host ≡ handled t)
    × IsDrained card 2 0 host t
    × (driver_owns (memory t) 0x30000 t.card.rx_buffer_ptr ≡ false)
    × IsRunning 0x200000 0x10000 0x31020 (record card { rx_buffer_ptr = t.card.rx_buffer_ptr }) t
do_irq_work-IsDrained_example =
    do_irq_work-IsDrained 0x200000 0x10000 0x31020 card host card-IsPlaced host-IsRunning
      host-AllFit (omega arith)

-- A card of the chip 0x2621, whose registers 88 and 89 hold the version: the selected register, and
-- what was last written to register 0.
abbrev card_ports : Ports
card_ports = record {
  State = ℕ × ℕ;
  inportb = λ p σ. (p % 256, σ);
  inportw = λ p σ. (0, σ);
  inportl = λ p σ. (if σ.0 == 88 then 0x1003 else if σ.0 == 89 then 0x262 else 0, σ);
  outportb = λ p v σ. σ;
  outportw = λ p v σ. σ;
  outportl = λ p v σ.
      if p == 0xc014 then (v, σ.1) else if (p == 0xc010) && (σ.0 == 0) then (σ.0, v) else σ;
}

-- The counter's readings, of which the last is another.
abbrev readings : List ℕ
readings = 7 ∷ 7 ∷ 8 ∷ []

-- No device yet, and the free block of the host above.
abbrev world : World card_ports
world = record {
  devices = record { net_devs = replicate 16 no_device; net_num_devs = 0; store = host.net.store };
  table = replicate 18 0;
  flag = true;
  machine = (0, 0);
  card = none;
}

abbrev pcidev : PciDev
pcidev = record { bus = 0; device = 2; function = 0; vendor_id = 0x1022; device_id = 0x2000 }

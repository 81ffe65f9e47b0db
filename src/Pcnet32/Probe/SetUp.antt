-- ===== src/Pcnet32/Probe/SetUp.antt =====
-- What the set-up of probe_pcnet32 leaves: the state that the card's interrupt work starts from.
use frog_os.Base.{ℕ, ◌+◌, ◌^◌, ◌<◌, ◌≤◌, ◌≡◌, refl, arith}
use frog_os.Base.{List, [], length, get_or, true, false}
use frog_os.Base.{some}
use frog_os.Memory.Laws.{IsBytes}
use frog_os.Ports.{Ports}
use frog_os.Alloc.Bump.{IsBump, IsBump-kept}
use frog_os.Network.Devices.{no_device}
use frog_os.Network.Host.{Host}
use frog_os.Pcnet32.{Card}
use frog_os.Pcnet32.Ring.{driver_owns}
use frog_os.Pcnet32.Work.{IsPlaced, IsRunning}
use frog_os.Pcnet32.Probe.{World, probed, alloc_rings, finish_probe}
use frog_os.Pcnet32.Probe.Served.{HasCard, IsServed, finish_probe-IsServed}
use frog_os.Pcnet32.Probe.Layout.{laid_out, rings_size, with_store, alloc_rings-laid_out}
use frog_os.Pcnet32.Probe.Finish.{after-IsBytes, after-above, after-owner}

-- The device `n` of the table as a host, with no frame buffers in the pool yet.
abbrev pub host_of : {ports : Ports} → World ports → Card → ℕ → Host Card
host_of w c n = record {
  net = record { buffers = 0; store = w.devices.store };
  dev = get_or w.devices.net_devs n no_device;
  card = c;
}

-- The driver of the device `n` runs with the card `c`, whose rings start at `p`: the card owns every
-- receive descriptor, and the driver every transmit descriptor.
pub record IsSetUp (ports : Ports) (limit p n : ℕ) (c : Card) (w : World ports) : Type 0 where
  pub driver : w.card ≡ some c
  pub placed : IsPlaced p (p + rings_size) c
  pub runs : IsRunning limit p (p + rings_size) c (host_of w c n)
  pub head : c.rx_buffer_ptr < c.rx_buffer_count
  pub receives :
      (i : ℕ) → i < c.rx_buffer_count → driver_owns w.devices.store.bytes c.rdes i ≡ false
  pub sends : (i : ℕ) → i < c.tx_buffer_count → driver_owns w.devices.store.bytes c.tdes i ≡ true

module _ (ports : Ports) (limit code netdev priv n : ℕ) (hw : List ℕ) (c : Card) (w : World ports)
    (rx : c.rx_buffer_count ≡ 64) (tx : c.tx_buffer_count ≡ 16) (first_rx : c.rx_buffer_ptr ≡ 0)
    (first_tx : c.tx_buffer_ptr ≡ 0) where
  laid_out-IsPlaced :
      (p : ℕ) → p + rings_size < limit → limit < 2 ^ 32 → IsPlaced p (p + rings_size) (laid_out c p)
  laid_out-IsPlaced p room word = record {
    ring = record { count = omega arith; below = omega arith; apart = omega arith };
    tx_count = omega arith;
    rdes_in = omega arith;
    rx_in = omega arith;
    tdes_in = omega arith;
    tx_in = omega arith;
    tx_apart = omega arith;
    tdes_apart = omega arith;
    buffers_apart = omega arith;
  }

  pub alloc_rings-IsSetUp :
      IsBump limit w.devices.store
      → IsBytes w.devices.store.bytes
      → w.devices.store.high_mem + rings_size < limit
      → priv + 96 ≤ w.devices.store.high_mem
      → length hw ≡ 6
      → length (get_or w.devices.net_devs n no_device).hw_addr ≡ 6
      → code < 2 ^ 32
      → netdev < 2 ^ 32
      → c.interrupt < 18
      → length w.table ≡ 18
      → (card : HasCard ports c.ioaddr)
      → (w' : World ports) × (alloc_rings ports code netdev priv hw c w ≡ probed w')
        × IsSetUp ports limit w.devices.store.high_mem n (laid_out c w.devices.store.high_mem) w'
        × IsServed ports c.ioaddr card code netdev (priv + 8) c.interrupt w'
        × (w'.devices.net_num_devs ≡ w.devices.net_num_devs)
  unfolding finish_probe
  alloc_rings-IsSetUp v b room front six address code_word netdev_word line entries card =
      let p = w.devices.store.high_mem in
      let d = laid_out c p in
      let (s, e, high, free, bytes) =
        alloc_rings-laid_out ports limit code netdev priv hw c w v b room line in
      let x = with_store w s in
      let (receives, sends) =
        after-owner ports code netdev priv hw d x six (omega arith) (omega arith) (omega arith)
          (omega arith) in
      let w' = finish_probe ports code netdev priv hw d x in
      (
        w',
        e,
        record {
          driver = refl;
          placed = laid_out-IsPlaced p room v.limit_in;
          runs = (
            [],
            [],
            record {
              net = record {
                net = record {
                  pool = refl;
                  bump =
                      IsBump-kept limit s w'.devices.store refl
                        (λ a ge.
                          after-above ports code netdev priv hw d x six (omega arith) (omega arith)
                            a (omega arith) (omega arith) (omega arith))
                        free;
                  layout = tt;
                };
                off_held = tt;
                off_free = tt;
                below = omega arith;
                bytes =
                    after-IsBytes ports code netdev priv hw d x six (omega arith) (omega arith)
                      bytes;
              };
              place = c.tx_buffer_ptr;
              place_in = omega arith;
              card = refl;
              address = address;
            },
          );
          head = omega arith;
          receives = receives;
          sends = sends;
        },
        finish_probe-IsServed ports d card code netdev priv hw x code_word netdev_word
            (omega arith),
        refl,
      )

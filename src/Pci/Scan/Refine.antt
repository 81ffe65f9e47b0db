-- ===== src/Pci/Scan/Refine.antt =====
-- The enumeration writes the functions that the configuration space holds, depth first.
use frog_os.Base.{ℕ, zero, suc, ◌+◌, ◌≤◌, ◌<◌, ◌≡◌, refl, sym, arith, inl, inr}
use frog_os.Base.{List, [], ◌∷◌, ◌++◌, length, length-append, true, false, Bool-cases, ◌==◌, leb}
use frog_os.Base.{Bool, Option, if◌then◌else◌, bit_and}
use mathlib.Core.Path.{subst}
use frog_os.Ports.{Ports}
use frog_os.Pci.{PciDev, config_read_word, get_vendor_id, get_header_type}
use frog_os.Pci.Scan.{Scan, Outcome, done, and_then, max_devices}
use frog_os.Pci.Scan.{check_function, check_functions, check_device, check_devices, check_bus}
use frog_os.Pci.Scan.{host_functions, check_all_buses}
use frog_os.Pci.Scan.Found.{View, vendor, secondary, is_bridge, is_single, entry}
use frog_os.Pci.Scan.Found.{found_function, found_functions, found_device, found_devices}
use frog_os.Pci.Scan.Found.{found_bus, found_all, IsOrdered}
use frog_os.Pci.Scan.Steps.{HasConfig, Sees, config_read_word-Reads}
use frog_os.Pci.Scan.Adds.{Adds, IsReady, Adds-nothing, Adds-and_then, Adds-if}
use frog_os.Pci.Scan.Function.{HasNoCard, check_function_eq}

module _ (ports : Ports) (conf : HasConfig ports) (c : View)
    (probe : PciDev → ℕ → ℕ → ports.State → Option ports.State) (no_card : HasNoCard c) where
  open ports use {State}

  module _ (ordered : IsOrdered c) (visit : ℕ → Scan ports → Outcome ports)
      (behind : ℕ → List PciDev) (b : ℕ) (hb : b < 256)
      (visits : (n : ℕ) (t : Scan ports)
        → b < n
        → n < 256
        → IsReady ports conf c t
        → Adds ports conf c t (behind n) (visit n t)) where
    check_function-Adds :
        (d f : ℕ) (s : Scan ports)
        → d < 32
        → f < 8
        → IsReady ports conf c s
        → Adds ports conf c s
            (found_function c behind b d f)
            (check_function ports probe visit b d f s)
    check_function-Adds d f s hd hf (small, see) =
        let (σ, σ', known, known', e) =
          check_function_eq ports conf c probe no_card visit b d f hb hd hf s see in
        let dev = entry c b d f in
        elim (Bool-cases (leb max_devices (length s.entries))) [
          | inl full ↦ inr (ground arith, rw (e, full))
          | inr room ↦
              let size = length-append s.entries (dev ∷ []) in
              elim (Bool-cases (is_bridge c b d f)) [
                | inr leaf ↦
                    rw (e, room, leaf)
                      (inl (
                        ground arith,
                        record { entries = s.entries ++ (dev ∷ []); machine = σ },
                        refl,
                        refl,
                        known,
                      ))
                | inl bridge ↦
                    let t : Scan ports = record {
                      entries = s.entries ++ (dev ∷ []);
                      machine = σ';
                    } in
                    let one : Adds ports conf c s (dev ∷ []) (done t) =
                      inl (ground arith, t, refl, refl, known') in
                    rw (e, room, bridge)
                      (Adds-and_then ports conf c s (dev ∷ []) (behind (secondary c b d f)) (done t)
                        (visit (secondary c b d f)) one
                        (λ u ready.
                          visits (secondary c b d f) u (ordered b d f hb hd hf bridge) (omega arith)
                            ready))
              ]
        ]

    check_functions-Adds :
        (n f d : ℕ) (s : Scan ports)
        → d < 32
        → f + n ≤ 8
        → IsReady ports conf c s
        → Adds ports conf c s
            (found_functions c behind n f b d)
            (check_functions ports probe visit n f b d s)
    unfolding check_functions found_functions get_vendor_id
    check_functions-Adds zero f d s hd h (small, see) =
        Adds-nothing ports conf c s s.machine small see
    check_functions-Adds (suc n) f d s hd h (small, see) =
        let (e, see') =
          config_read_word-Reads ports conf c b d f 0 s.machine hb hd (omega arith) (omega arith)
            (omega arith) see in
        let s' = record s { machine = (config_read_word ports b d f 0 s.machine).1 } in
        let here = check_function ports probe visit b d f s' in
        let missing = vendor c b d f == 0xffff in
        rw e (
          Adds-and_then ports conf c s (if missing then [] else found_function c behind b d f)
            (found_functions c behind n (f + 1) b d) (if missing then done s' else here)
            (λ t. check_functions ports probe visit n (f + 1) b d t)
            (Adds-if ports conf c missing s (found_function c behind b d f) (done s') here
              (Adds-nothing ports conf c s s'.machine small see')
              (check_function-Adds d f s' hd (omega arith) (small, see')))
            (λ t. check_functions-Adds n (f + 1) d t hd (omega arith)))

    -- The end of `checkDevice`, on the functions from 1 on.
    other_functions : ℕ → Scan ports → Outcome ports
    other_functions d t =
        let (header_type, σ) = get_header_type ports b d 0 t.machine in
        let t' = record t { machine = σ } in
        if bit_and header_type 0x80 == 0
        then done t'
        else check_functions ports probe visit 7 1 b d t'

    other_functions-Adds :
        (d : ℕ)
        → d < 32
        → (t : Scan ports) → IsReady ports conf c t
        → Adds ports conf c t
            (if is_single c b d then [] else found_functions c behind 7 1 b d)
            (other_functions d t)
    unfolding other_functions get_header_type
    other_functions-Adds d hd t (small, see) =
        let (e, see') =
          config_read_word-Reads ports conf c b d 0 0xe t.machine hb hd (omega arith) (omega arith)
            (omega arith) see in
        let t' = record t { machine = (config_read_word ports b d 0 0xe t.machine).1 } in
        rw e (
          Adds-if ports conf c (is_single c b d) t (found_functions c behind 7 1 b d) (done t')
            (check_functions ports probe visit 7 1 b d t')
            (Adds-nothing ports conf c t t'.machine small see')
            (check_functions-Adds 7 1 d t' hd (omega arith) (small, see')))

    check_device-Adds :
        (d : ℕ) (s : Scan ports)
        → d < 32
        → IsReady ports conf c s
        → Adds ports conf c s (found_device c behind b d) (check_device ports probe visit b d s)
    unfolding check_device found_device get_vendor_id other_functions
    check_device-Adds d s hd (small, see) =
        let (e, see') =
          config_read_word-Reads ports conf c b d 0 0 s.machine hb hd (omega arith) (omega arith)
            (omega arith) see in
        let s' = record s { machine = (config_read_word ports b d 0 0 s.machine).1 } in
        let rest = if is_single c b d then [] else found_functions c behind 7 1 b d in
        let next = other_functions d in
        rw e (
          Adds-if ports conf c (vendor c b d 0 == 0xffff) s (found_function c behind b d 0 ++ rest)
            (done s') (and_then (check_function ports probe visit b d 0 s') next)
            (Adds-nothing ports conf c s s'.machine small see')
            (Adds-and_then ports conf c s (found_function c behind b d 0) rest
              (check_function ports probe visit b d 0 s') next
              (check_function-Adds d 0 s' hd (omega arith) (small, see'))
              (other_functions-Adds d hd)))

    check_devices-Adds :
        (n d : ℕ) (s : Scan ports)
        → d + n ≤ 32
        → IsReady ports conf c s
        → Adds ports conf c s
            (found_devices c behind n d b)
            (check_devices ports probe visit n d b s)
    unfolding check_devices found_devices
    check_devices-Adds zero d s h (small, see) = Adds-nothing ports conf c s s.machine small see
    check_devices-Adds (suc n) d s h ready =
        Adds-and_then ports conf c s (found_device c behind b d)
          (found_devices c behind n (d + 1) b) (check_device ports probe visit b d s)
          (λ t. check_devices ports probe visit n (d + 1) b t)
          (check_device-Adds d s (omega arith) ready)
          (λ t. check_devices-Adds n (d + 1) t (omega arith))

  pub check_bus-Adds :
      (fuel b : ℕ) (s : Scan ports)
      → IsOrdered c
      → b < 256
      → 256 ≤ fuel + b
      → IsReady ports conf c s
      → Adds ports conf c s (found_bus c fuel b) (check_bus ports probe fuel b s)
  unfolding check_bus found_bus
  check_bus-Adds zero b s ordered hb h ready = absurd (omega arith)
  check_bus-Adds (suc fuel) b s ordered hb h ready =
      check_devices-Adds ordered (check_bus ports probe fuel) (found_bus c fuel) b hb
        (λ n t lt hn r. check_bus-Adds fuel n t ordered hn (omega arith) r) 32 0 s (omega arith)
        ready

  host_functions-none :
      (fuel : ℕ) (s : Scan ports) → host_functions ports probe (suc fuel) 0 s ≡ done s
  unfolding host_functions
  host_functions-none fuel s = refl

  -- Both branches of `checkAllBuses`, for the header's word `v`.
  host-Adds :
      (v : ℕ) (s : Scan ports)
      → IsOrdered c
      → IsReady ports conf c s
      → Adds ports conf c s (if bit_and (bit_and v 0xff) 0x80 == 0 then found_bus c 256 0 else []) (
          if bit_and (bit_and v 0xff) 0x80 == 0
          then check_bus ports probe 256 0 s
          else host_functions ports probe 256 0 s)
  host-Adds v s ordered (small, see) = pick (bit_and (bit_and v 0xff) 0x80 == 0)
    where
      pick :
          (t : Bool)
          → Adds ports conf c s
              (if t then found_bus c 256 0 else [])
              (if t then check_bus ports probe 256 0 s else host_functions ports probe 256 0 s)
      pick true = check_bus-Adds 256 0 s ordered (omega arith) (omega arith) (small, see)
      pick false =
          subst (Adds ports conf c s []) (sym (host_functions-none 255 s))
            (Adds-nothing ports conf c s s.machine small see)

  -- In a machine that shows a configuration space without a card of the driver's, whose bridges lead
  -- to buses of higher numbers, and so whatever the driver does, the enumeration of an empty table ends. It lists the functions of bus 0 and of the buses behind
  -- its bridges, depth first, if they are 20 at most, and writes behind the table if they are more;
  -- it lists nothing at all when the host bridge has several functions.
  pub check_all_buses-Adds :
      (σ : State)
      → IsOrdered c
      → Sees ports conf c σ
      → let s : Scan ports = record { entries = []; machine = σ } in
        Adds ports conf c s (found_all c) (check_all_buses ports probe s)
  unfolding check_all_buses get_header_type found_all
  check_all_buses-Adds σ ordered see =
      let (e, see') =
        config_read_word-Reads ports conf c 0 0 0 0xe σ (omega arith) (omega arith) (omega arith)
          (omega arith) (omega arith) see in
      let s' : Scan ports = record {
        entries = [];
        machine = (config_read_word ports 0 0 0 0xe σ).1;
      } in
      subst
        (λ v.
          Adds ports conf c s'
            (if bit_and (bit_and v 0xff) 0x80 == 0 then found_bus c 256 0 else [])
            (check_all_buses ports probe (record { entries = []; machine = σ })))
        e (host-Adds (config_read_word ports 0 0 0 0xe σ).0 s' ordered (omega arith, see'))

-- ===== src/Pci/Scan/Function.antt =====
-- `checkFunction` in a machine whose configuration space is known.
use frog_os.Base.{ℕ, ◌<◌, ◌≡◌, ◌≢◌, ◌∙◌, arith}
use frog_os.Base.{[], ◌∷◌, ◌++◌, length, true, false, ◌==◌, leb}
use frog_os.Base.{refl, ap, Option, some, Bool, ◌/◌, if◌then◌else◌, bit_and, ◌&&◌}
use frog_os.Ports.{Ports}
use frog_os.Pci.{PciDev, config_read_word, get_vendor_id, get_device_id}
use frog_os.Pci.{get_base_class, get_sub_class, get_secondary_bus}
use frog_os.Pci.Scan.{Scan, Outcome, done, overrun, probe_function, max_devices, print_function}
use frog_os.Pci.Scan.{add_function, check_function, is_pcnet32}
use frog_os.Pci.Scan.Found.{View, word, base_class, secondary, is_bridge, entry}
use frog_os.Pci.Scan.Steps.{HasConfig, Sees, config_read_word-Reads}
use frog_os.Pci.Scan.Steps.{print_function-Sees}

-- No function is a card that the driver is called for.
abbrev pub HasNoCard : View → Type 0
HasNoCard c = (b d f : ℕ) → b < 256 → d < 32 → f < 8 → is_pcnet32 (entry c b d f) ≡ false

module _ (ports : Ports) (conf : HasConfig ports) (c : View)
    (probe : PciDev → ℕ → ℕ → ports.State → Option ports.State) (no_card : HasNoCard c) where
  open ports use {State}

  Sees-if :
      (b : Bool) (σ σ' : State)
      → Sees ports conf c σ
      → Sees ports conf c σ'
      → Sees ports conf c (if b then σ else σ')
  Sees-if true σ σ' see see' = see
  Sees-if false σ σ' see see' = see'

  probe_function-Sees :
      (dev : PciDev) (base : ℕ) (σ : State)
      → is_pcnet32 dev ≡ false
      → Sees ports conf c σ
      → (σ' : State) × (probe_function ports probe dev base σ ≡ some σ') × Sees ports conf c σ'
  unfolding probe_function
  probe_function-Sees dev base σ other see =
      let shown = print_function ports dev.bus dev.device dev.function σ in
      let intel = (dev.vendor_id == 0x8086) && (base == 2) in
      (
        if intel then shown else σ,
        rw (probe_function, other) refl,
        Sees-if intel shown σ
            (print_function-Sees ports conf c dev.bus dev.device dev.function σ see) see,
      )

  module _ (visit : ℕ → Scan ports → Outcome ports) (b d f : ℕ) (hb : b < 256) (hd : d < 32)
      (hf : f < 8) where
    add_function_eq :
        (s : Scan ports) (base sub : ℕ) (σ : State)
        → Sees ports conf c σ
        → (σ' : State) × Sees ports conf c σ'
          × (add_function ports probe visit s (entry c b d f) base sub (some σ) ≡ (
              if leb max_devices (length s.entries)
              then overrun
              else if (base == 6) && (sub == 4)
              then visit
                  (secondary c b d f)
                  (record { entries = s.entries ++ (entry c b d f ∷ []); machine = σ' })
              else done (record { entries = s.entries ++ (entry c b d f ∷ []); machine = σ })))
    unfolding add_function get_secondary_bus
    add_function_eq s base sub σ see =
        let (e, see') =
          config_read_word-Reads ports conf c b d f 0x18 σ hb hd hf (omega arith) (omega arith)
            see in
        ((config_read_word ports b d f 0x18 σ).1, see', rw e)

    check_function-reads :
        (s : Scan ports)
        → Sees ports conf c s.machine
        → (σ : State) × Sees ports conf c σ
          × (check_function ports probe visit b d f s
              ≡ add_function ports probe visit s
                  (entry c b d f)
                  (base_class c b d f)
                  (bit_and (word c b d f 0xa) 0xff)
                  (probe_function ports probe (entry c b d f) (base_class c b d f) σ))
    unfolding check_function get_base_class get_sub_class get_vendor_id get_device_id
    check_function-reads s see =
        let at = λ (o : ℕ) (σ : State). config_read_word ports b d f o σ in
        let read = λ (o : ℕ) (σ : State) (h : o < 256) (n : o / 4 ≢ 1).
          config_read_word-Reads ports conf c b d f o σ hb hd hf h n in
        let σ₁ = (at 0xa s.machine).1 in
        let (e₁, s₁) = read 0xa s.machine (omega arith) (omega arith) see in
        let σ₂ = (at 0xa σ₁).1 in
        let (e₂, s₂) = read 0xa σ₁ (omega arith) (omega arith) s₁ in
        let σ₃ = (at 0 σ₂).1 in
        let (e₃, s₃) = read 0 σ₂ (omega arith) (omega arith) s₂ in
        let (e₄, s₄) = read 2 σ₃ (omega arith) (omega arith) s₃ in
        ((at 2 σ₃).1, s₄, rw (e₁, e₂, e₃, e₄))

    -- The record after the table's write, on both sides of the bridge test.
    pub check_function_eq :
        (s : Scan ports)
        → Sees ports conf c s.machine
        → (σ : State) × (σ' : State) × Sees ports conf c σ
          × Sees ports conf c σ'
          × (check_function ports probe visit b d f s ≡ (
              if leb max_devices (length s.entries)
              then overrun
              else if is_bridge c b d f
              then visit
                  (secondary c b d f)
                  (record { entries = s.entries ++ (entry c b d f ∷ []); machine = σ' })
              else done (record { entries = s.entries ++ (entry c b d f ∷ []); machine = σ })))
    check_function_eq s see =
        let dev = entry c b d f in
        let base = base_class c b d f in
        let sub = bit_and (word c b d f 0xa) 0xff in
        let (σ, known, reads) = check_function-reads s see in
        let (σ', e, known') = probe_function-Sees dev base σ (no_card b d f hb hd hf) known in
        let (σ'', known'', add) = add_function_eq s base sub σ' known' in
        (
          σ',
          σ'',
          known',
          known'',
          reads ∙ ap (add_function ports probe visit s dev base sub) e ∙ add,
        )

-- ===== src/Pci/Scan/Steps.antt =====
-- The reads of the enumeration, in a machine whose configuration space is known.
use frog_os.Base.{ℕ, zero, suc, ◌+◌, ◌*◌, ◌/◌, ◌%◌, ◌<◌, ◌≡◌, ◌≢◌, ◌∙◌, ap, arith}
use frog_os.Base.{bit_and, ◌>>>◌}
use frog_os.Ports.{Ports}
use frog_os.Pci.{config_address, config_read_word, config_read_dword}
use frog_os.Pci.{get_vendor_id, get_device_id, get_base_class, get_sub_class}
use frog_os.Pci.{get_prog_if}
use frog_os.Pci.Address.{config_address_lem}
use frog_os.Pci.Scan.{print_bars, print_function}
use frog_os.Pci.Scan.Found.{View, word}

-- Configuration mechanism 1 of the PCI specification: the register that an address written to 0xCF8
-- selects is read at 0xCFC, and reading changes no register.
pub record HasConfig (ports : Ports) : Type 0 where
  pub config : ports.State → View
  pub reads :
      (a : ℕ) (σ : ports.State) → (ports.inportl 0xcfc (ports.outportl 0xcf8 a σ)).0 ≡ config σ a
  pub keeps :
      (a b : ℕ) (σ : ports.State)
      → config (ports.inportl 0xcfc (ports.outportl 0xcf8 a σ)).1 b ≡ config σ b

module _ (ports : Ports) (conf : HasConfig ports) (c : View) where
  open ports use {State}
  open conf use {config, reads, keeps}

  -- The registers are the view's, but for the command and status registers.
  abbrev pub Sees : State → Type 0
  Sees σ = (a : ℕ) → a % 256 ≢ 4 → config σ a ≡ c a

  -- A read that returns a value and leaves a machine that shows the view.
  abbrev pub Reads : ℕ → ℕ × State → Type 0
  Reads v r = (r.0 ≡ v) × Sees r.1

  pub config_read_dword-Sees :
      (b d f o : ℕ) (σ : State) → Sees σ → Sees (config_read_dword ports b d f o σ).1
  unfolding config_read_dword
  config_read_dword-Sees b d f o σ s a h = keeps (config_address b d f o) a σ ∙ s a h

  pub config_read_word-Sees :
      (b d f o : ℕ) (σ : State) → Sees σ → Sees (config_read_word ports b d f o σ).1
  unfolding config_read_word
  config_read_word-Sees b d f o σ s a h = keeps (config_address b d f o) a σ ∙ s a h

  pub config_read_word-Reads :
      (b d f o : ℕ) (σ : State)
      → b < 256
      → d < 32
      → f < 8
      → o < 256
      → o / 4 ≢ 1
      → Sees σ
      → Reads (word c b d f o) (config_read_word ports b d f o σ)
  config_read_word-Reads b d f o σ hb hd hf ho command s = (
    unfold config_read_word in
        ap (λ v. bit_and (v >>> (bit_and o 2 * 8)) 0xffff)
          (reads (config_address b d f o) σ
            ∙ s (config_address b d f o) (omega (arith, config_address_lem b d f o hb hd hf ho))),
    config_read_word-Sees b d f o σ s,
  )

  print_bars-Sees : (n bar b d f : ℕ) (σ : State) → Sees σ → Sees (print_bars ports n bar b d f σ)
  unfolding print_bars
  print_bars-Sees zero bar b d f σ s = s
  print_bars-Sees (suc n) bar b d f σ s =
      print_bars-Sees n (bar + 1) b d f _ (config_read_dword-Sees b d f (0x10 + bar * 4) σ s)

  pub print_function-Sees : (b d f : ℕ) (σ : State) → Sees σ → Sees (print_function ports b d f σ)
  unfolding print_function get_vendor_id get_device_id get_base_class get_sub_class get_prog_if
  print_function-Sees b d f σ s =
      let read = config_read_word-Sees b d f in
      print_bars-Sees 6 0 b d f _ (
        read 0x3c _ (
          read 0x2e _ (read 0x2c _ (read 0x8 _ (read 0xa _ (read 0xa _ (read 2 _ (read 0 _ s))))))))

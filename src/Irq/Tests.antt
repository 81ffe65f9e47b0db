-- ===== src/Irq/Tests.antt =====
-- The interrupt code's theorems at concrete inputs.
use frog_os.Base.{ℕ, ◌^◌, ◌<◌, ◌≤◌, ◌≡◌, ◌⊎◌, refl, arith, u8, ◌==◌}
use frog_os.Base.{[], ◌∷◌, some, true, set, replicate, if◌then◌else◌}
use frog_os.Memory.{Mem, load32, store32}
use frog_os.Memory.Laws.{store32-IsBytes}
use frog_os.Irq.{Bus, Irqs}
use frog_os.Irq.{install_irq_handler, uninstall_irq_handler, max_handlers}
use frog_os.Irq.Idt.{set_irqs}
use frog_os.Irq.Idt.Gates.{IsGate, set_irqs-IsGate}
use frog_os.Base.{◌+◌, ◌*◌, ◌%◌}
use frog_os.Irq.Chain.{remove}
use frog_os.Irq.Handlers.{
  zero_words, IsIrqs, set_words, Installed, uninstall_links, install-uninstall,
}

-- Ports that read back the byte last written to them.
abbrev latches : Bus
latches = record {
  State = ℕ → ℕ;
  inportb = λ p σ. (u8 (σ p), σ);
  outportb = λ p v σ q. if q == p then v else σ q;
}

abbrev all_masked : ℕ → ℕ
all_masked p = 255

-- The record at 0x500 serves line 1 and the one at 0x600 line 3.
abbrev memory : Mem
memory = store32 (store32 (λ x. 0) 0x500 77) 0x504 88

abbrev two_lines : Irqs latches
two_lines = record {
  table = set (set (replicate 18 0) 1 0x500) 3 0x600;
  bytes = memory;
  ports = all_masked;
  flag = true;
}

two_lines-IsIrqs : IsIrqs latches two_lines
two_lines-IsIrqs = record {
  entries = refl;
  words =
      set_words (set (replicate 18 0) 1 0x500) 3 0x600 (omega arith) (omega arith)
        (set_words (replicate 18 0) 1 0x500 (omega arith) (omega arith) (zero_words 18));
  bytes = store32-IsBytes _ 0x504 88 (store32-IsBytes (λ x. 0) 0x500 77 (λ x. omega arith));
}

line_1 : Installed latches two_lines 1 (0x500 ∷ [])
unfolding load32 store32
line_1 = (refl, omega arith, tt, refl)

line_3 : Installed latches two_lines 3 (0x600 ∷ [])
unfolding load32 store32
line_3 = (refl, omega arith, tt, refl)

uninstall_links_example :
    (s' : Irqs latches) × (uninstall_irq_handler latches 1 0x500 two_lines ≡ some s')
    × IsIrqs latches s'
    × Installed latches s' 1 (remove 0x500 (0x500 ∷ []))
    × Installed latches s' 3 (0x600 ∷ [])
    × (s'.flag ≡ true)
unfolding max_handlers
uninstall_links_example =
    uninstall_links latches two_lines two_lines-IsIrqs 1 0x500 3 (0x500 ∷ []) (0x600 ∷ [])
      (omega arith) (omega arith) (omega arith) (omega arith) (omega arith) line_1 line_3

install-uninstall_example :
    (s' : Irqs latches) × (uninstall_irq_handler latches 1 0x700
        (install_irq_handler latches 1 0x700 two_lines)
      ≡ some s')
    × Installed latches s' 1 (0x500 ∷ [])
    × Installed latches s' 3 (0x600 ∷ [])
unfolding max_handlers
install-uninstall_example =
    install-uninstall latches two_lines 1 0x700 3 (0x500 ∷ []) (0x600 ∷ []) two_lines-IsIrqs
      (omega arith) (omega arith) (omega arith) (omega arith) (omega arith) (omega arith)
      (omega arith) line_1 line_3

-- Entry points 16 bytes apart.
abbrev entry_at : ℕ → ℕ
entry_at n = (0x100 + n) * 16 % 2 ^ 32

set_irqs-IsGate_example :
    ((48 < 49)
      × IsGate
          (set_irqs latches 0x2000 entry_at memory all_masked).0
          (0x2000 + 8 * 48)
          (entry_at 48))
    ⊎ ((49 ≤ 48)
        × ((set_irqs latches 0x2000 entry_at memory all_masked).0 (0x2000 + 8 * 48 + 7) ≡ 0))
set_irqs-IsGate_example =
    set_irqs-IsGate 0x2000 entry_at (λ i. omega arith) latches memory all_masked 48 7 (omega arith)
      (omega arith)

-- ===== src/Startup/Cmain/Up.antt =====
-- The kernel after its start: the handlers, the interrupts and the allocator.
use frog_os.Base.{ℕ, ◌+◌, ◌*◌, ◌<◌, ◌≤◌, ◌≡◌, ◌≢◌, ◌⊎◌, refl, arith}
use frog_os.Base.{List, [], ◌∷◌, true, ltb, if◌then◌else◌}
use frog_os.Memory.{Mem}
use frog_os.Memory.Laws.{store32-outside}
use frog_os.Alloc.Bump.{IsBump, IsBump-kept}
use frog_os.Irq.{Bus, handler_of, irq_clear_mask, install_irq_handler}
use frog_os.Irq.Chain.{AllApart}
use frog_os.Irq.Handlers.{IsIrqs, Installed, install_links}
use frog_os.Irq.Masks.{HasPics, IsMaskPort, masked}
use frog_os.Irq.Idt.Gates.{IsGate}
use frog_os.Startup.{Kernel, store_of}
use frog_os.Startup.Cmain.{Image, with_syscall}
use frog_os.Startup.Cmain.Tables.{limit, IsImage}

-- The timer's ports are another device's: writing to them changes no interrupt mask and
-- no controller's initialisation.
pub record HasPit (bus : Bus) (pics : HasPics bus) : Type 0 where
  pub timer :
      (p q v : ℕ) (σ : bus.State)
      → 0x40 ≤ p
      → p < 0x44
      → IsMaskPort q
      → pics.mask q (bus.outportb p v σ) ≡ pics.mask q σ
  pub timer_waits :
      (p q v : ℕ) (σ : bus.State)
      → 0x40 ≤ p
      → p < 0x44
      → IsMaskPort q
      → pics.waits q (bus.outportb p v σ) ≡ pics.waits q σ

-- The timer's, the keyboard's and the system call's handler are each the only one of their line; the
-- records of the first two were allocated from `p` on.
pub record IsUp (bus : Bus) (pics : HasPics bus) (im : Image) (m : Mem) (p : ℕ) (k : Kernel bus)
    : Type 0 where
  pub irqs : IsIrqs bus k.irqs
  pub enabled : k.irqs.flag ≡ true
  pub free : IsBump limit (store_of k)
  pub high : k.high_mem ≡ p + 32
  pub timer : Installed bus k.irqs 0 (p ∷ []) × (handler_of k.irqs.bytes (p) ≡ im.pit_handler)
  pub keyboard :
      Installed bus k.irqs 1 ((p + 16) ∷ []) × (handler_of k.irqs.bytes (p + 16) ≡ im.kbd_handler)
  pub syscall :
      Installed bus k.irqs 16 (im.irq48_h ∷ [])
      × (handler_of k.irqs.bytes im.irq48_h ≡ handler_of m im.irq48_h)
  pub others : (j : ℕ) → j ≢ 0 → j ≢ 1 → j ≢ 16 → Installed bus k.irqs j []
  pub gates : (n : ℕ) → n < 49 → IsGate k.irqs.bytes (im.idt + 8 * n) (im.entry n)
  pub masks : (j : ℕ) → j < 16 → masked bus pics j k.irqs.ports ≡ (if ltb j 3 then 0 else 1)

-- The static record is the first of a line that has no mask.
module _ (bus : Bus) (im : Image) (v : IsImage im) (k : Kernel bus) (valid : IsIrqs bus k.irqs)
    (free : IsBump limit (store_of k)) (high : im.kernel_end ≤ k.high_mem)
    (line : Installed bus k.irqs 16 []) where
  pub with_syscall-Installed :
      (j : ℕ) (ys : List ℕ)
      → j ≢ 16
      → AllApart im.irq48_h ys
      → Installed bus k.irqs j ys
      → let s = (with_syscall bus im k).irqs in
        IsIrqs bus s × Installed bus s 16 (im.irq48_h ∷ []) × Installed bus s j ys × (s.flag ≡ true)
  with_syscall-Installed j ys ne apart other =
      install_links bus k.irqs valid 16 im.irq48_h j [] ys (omega arith) v.record_in.0
        (omega (arith, v.record_in, v.room)) ne tt apart line other

  pub with_syscall-outside :
      (x : ℕ)
      → (x < im.irq48_h + 8) ⊎ (im.irq48_h + 12 ≤ x)
      → (with_syscall bus im k).irqs.bytes x ≡ k.irqs.bytes x
  unfolding install_irq_handler
  with_syscall-outside x out = store32-outside k.irqs.bytes (im.irq48_h + 8) _ x (omega arith)

  pub with_syscall-IsBump : IsBump limit (store_of (with_syscall bus im k))
  with_syscall-IsBump =
      IsBump-kept limit (store_of k) (store_of (with_syscall bus im k)) refl
        (λ x ge. with_syscall-outside x (omega (arith, v.record_in))) free

  pub with_syscall_ports : (with_syscall bus im k).irqs.ports ≡ k.irqs.ports
  unfolding install_irq_handler irq_clear_mask
  with_syscall_ports = rw line refl

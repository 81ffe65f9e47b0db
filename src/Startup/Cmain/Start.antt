-- ===== src/Startup/Cmain/Start.antt =====
-- The start of the kernel from the loaded image.
use frog_os.Base.{ℕ, ◌+◌, ◌*◌, ◌<◌, ◌≤◌, ◌≡◌, ◌≢◌, ◌⊎◌, ◌∙◌, ap, arith, inl, inr}
use frog_os.Base.{List, [], ◌∷◌, true}
use mathlib.Core.Path.{subst}
use frog_os.Memory.{Mem}
use frog_os.Memory.Laws.{IsBytes, load32-same}
use frog_os.Irq.{Bus, handler_of, irq_clear_mask}
use frog_os.Irq.Chain.{AllApart}
use frog_os.Irq.Handlers.{IsIrqs, Installed}
use frog_os.Irq.Masks.{HasPics}
use frog_os.Irq.Idt.Gates.{IsGate, IsGate-kept, set_irqs-IsGate}
use frog_os.Irq.Idt.Pics.{set_irqs-IsIdle, set_irqs_masks}
use frog_os.Startup.{Kernel, started, init_kbd}
use frog_os.Startup.Install.{AllOff, IsReady}
use frog_os.Startup.Steps.{Registered, set_pit-Registered, init_kbd-Registered}
use frog_os.Startup.Cmain.{Image, tables, with_syscall, start, and_then}
use frog_os.Alloc.{init_mem}
use frog_os.Startup.Cmain.Masks.{start_masks}
use frog_os.Startup.Cmain.Tables.{limit, IsImage, first_block, tables_high}
use frog_os.Startup.Cmain.Tables.{tables-IsIrqs, tables-IsBump, tables-line, tables-outside}
use frog_os.Startup.Cmain.Up.{HasPit, IsUp, with_syscall-Installed, with_syscall-outside}
use frog_os.Startup.Cmain.Up.{with_syscall-IsBump, with_syscall_ports}

-- The three registrations, one after another.
module _ (bus : Bus) (pics : HasPics bus) (pit : HasPit bus pics) (im : Image) (v : IsImage im)
    (m : Mem) (b : IsBytes m) (σ : bus.State) (k₁ k₃ : Kernel bus)
    (r₁ : Registered bus limit 0 im.pit_handler (tables bus im m σ) k₁)
    (r₃ : Registered bus limit 1 im.kbd_handler (with_syscall bus im k₁) k₃) where
  line_after :
      (j : ℕ) → j ≢ 0 → IsReady bus limit 0 j (tables bus im m σ).high_mem im.pit_handler [] [] k₁
  line_after j ne = r₁.ready j [] ne tt (tables-line bus im v m b σ j)

  high_le : im.kernel_end ≤ (tables bus im m σ).high_mem
  high_le = rw (tables_high bus im v m b σ) (omega arith)

  high_after : k₁.high_mem ≡ (tables bus im m σ).high_mem + 16
  high_after = (line_after 16 (omega arith)).high

  -- The image in front of the free block changes only in the static record's link.
  image_kept :
      (x : ℕ)
      → x < im.kernel_end
      → (x < im.irq48_h + 8) ⊎ (im.irq48_h + 12 ≤ x)
      → k₃.irqs.bytes x ≡ (tables bus im m σ).irqs.bytes x
  image_kept x inside off =
      let le = high_le in
      let at = high_after in
      let second = line_after 16 (omega arith) in
      r₃.frame x (inl (omega arith))
      ∙ with_syscall-outside bus im v k₁ second.irqs second.bump (omega arith) second.other x off
      ∙ r₁.frame x (inl (omega arith))

  gates_after : (n : ℕ) → n < 49 → IsGate k₃.irqs.bytes (im.idt + 8 * n) (im.entry n)
  gates_after n lt =
      elim (set_irqs-IsGate im.idt im.entry v.entries bus (init_mem im.kernel_end m).bytes σ n 0
        (omega arith) (omega arith)) [
          | inr (free, e) ↦ absurd (omega arith)
          | inl (used, gate) ↦
              IsGate-kept (tables bus im m σ).irqs.bytes k₃.irqs.bytes (im.idt + 8 * n) (im.entry n)
                (λ i hi.
                  image_kept (im.idt + 8 * n + i) (omega (arith, v.idt_in))
                    (omega (arith, v.record_apart)))
                gate
        ]

  syscall_after : handler_of k₃.irqs.bytes im.irq48_h ≡ handler_of m im.irq48_h
  syscall_after = load32-same im.irq48_h m k₃.irqs.bytes (λ x lo hi.
      image_kept x (omega (arith, v.record_in)) (omega arith)
      ∙ tables-outside bus im v m b σ x (omega (arith, v.record_in))
          (omega (arith, v.record_apart)))

  timer_after : handler_of k₃.irqs.bytes (tables bus im m σ).high_mem ≡ im.pit_handler
  timer_after =
      let p = (tables bus im m σ).high_mem in
      let le = high_le in
      let at = high_after in
      let second = line_after 16 (omega arith) in
      load32-same p k₁.irqs.bytes k₃.irqs.bytes (λ x lo hi.
        r₃.frame x (inl (omega arith))
        ∙ with_syscall-outside bus im v k₁ second.irqs second.bump (omega arith) second.other x
            (omega (arith, v.record_in)))
      ∙ second.handler_code

  installed :
      (j : ℕ) (ys : List ℕ)
      → j ≢ 16
      → AllApart im.irq48_h ys
      → Installed bus k₁.irqs j ys
      → let s = (with_syscall bus im k₁).irqs in
        IsIrqs bus s × Installed bus s 16 (im.irq48_h ∷ []) × Installed bus s j ys × (s.flag ≡ true)
  installed =
      let le = high_le in
      let at = high_after in
      let second = line_after 16 (omega arith) in
      with_syscall-Installed bus im v k₁ second.irqs second.bump (omega arith) second.other

  keyboard_after :
      (j : ℕ) (ys : List ℕ)
      → j ≢ 1
      → AllOff k₁.high_mem limit ys
      → Installed bus (with_syscall bus im k₁).irqs j ys
      → IsReady bus limit 1 j k₁.high_mem im.kbd_handler [] ys k₃
  keyboard_after = r₃.ready

  other_after : (j : ℕ) → j ≢ 0 → j ≢ 1 → j ≢ 16 → Installed bus k₃.irqs j []
  other_after j n₀ n₁ n₁₆ =
      let (i, l, o, e) = installed j [] n₁₆ tt (line_after j n₀).other in
      (keyboard_after j [] n₁ tt o).other

  registered-IsUp :
      k₃.irqs.ports
        ≡ irq_clear_mask bus 1 (
            bus.outportb 0x40 0x2e (
              bus.outportb 0x40 0x9c
                (bus.outportb 0x42 0x34 (irq_clear_mask bus 0 (tables bus im m σ).irqs.ports))))
      → IsUp bus pics im m (first_block im) k₃
  registered-IsUp ports =
      let p = (tables bus im m σ).high_mem in
      let le = high_le in
      let at = high_after in
      let second = line_after 16 (omega arith) in
      let (i, l, o, e) =
        installed 0 (p ∷ []) (omega arith) (omega (arith, v.record_in), tt) second.line in
      let third = keyboard_after 0 (p ∷ []) (omega arith) (omega arith, tt) o in
      let static =
        keyboard_after 16 (im.irq48_h ∷ []) (omega arith) (omega (arith, v.record_in), tt) l in
      subst (λ a. IsUp bus pics im m a k₃) (tables_high bus im v m b σ)
        (record {
          irqs = third.irqs;
          enabled = third.enabled;
          free = third.bump;
          high = omega (arith, third.high);
          timer = (third.other, timer_after);
          keyboard =
              subst
                (λ a.
                  Installed bus k₃.irqs 1 (a ∷ []) × (handler_of k₃.irqs.bytes a ≡ im.kbd_handler))
                at (third.line, third.handler_code);
          syscall = (static.other, syscall_after);
          others = other_after;
          gates = gates_after;
          masks = λ j h.
              start_masks bus pics pit j (tables bus im m σ).irqs.ports k₃.irqs.ports h
                (set_irqs-IsIdle bus pics im.idt im.entry _ σ)
                (set_irqs_masks bus pics im.idt im.entry _ σ j h) ports;
        })

-- The start of the kernel, from a loaded image with room for 64 bytes below the end of the memory, on
-- interrupt controllers that take their initialisation and their masks as the data sheet says, in any
-- state, and a timer whose ports are not theirs: it does not get stuck. Then the timer's, the keyboard's and the system call's handler, each with its
-- function, are the only ones of the lines 0, 1 and 16, and no other line has one; the 49 gates lead to
-- their entry points; interrupts are enabled, and of the 16 lines of the controllers only 0, 1 and 2 are
-- not masked; and the rest of the memory behind the two records is the one free block.
pub start-IsUp :
    (bus : Bus) (pics : HasPics bus)
    → HasPit bus pics
    → (im : Image) → IsImage im
    → (m : Mem) → IsBytes m
    → (σ : bus.State)
    → (k : Kernel bus) × (start bus im m σ ≡ started k) × IsUp bus pics im m (first_block im) k
unfolding start
start-IsUp bus pics pit im v m b σ =
    let k₀ = tables bus im m σ in
    let at₀ = tables_high bus im v m b σ in
    let lines = tables-line bus im v m b σ in
    let (k₁, e₁, r₁, p₁) =
      set_pit-Registered bus limit im.pit_handler k₀ (tables-IsIrqs bus im v m b σ)
        (tables-IsBump bus im v m b σ) (omega (arith, v.room)) v.pit_word (lines 0) in
    let second = r₁.ready 16 [] (omega arith) tt (lines 16) in
    let keyboard = r₁.ready 1 [] (omega arith) tt (lines 1) in
    let k₂ = with_syscall bus im k₁ in
    let high : im.kernel_end ≤ k₁.high_mem = omega (arith, second.high) in
    let (i, l, o, e) =
      with_syscall-Installed bus im v k₁ second.irqs second.bump high second.other 1 []
        (omega arith) tt keyboard.other in
    let free = with_syscall-IsBump bus im v k₁ second.irqs second.bump high second.other in
    let (k₃, e₃, r₃, p₃) =
      init_kbd-Registered bus limit im.kbd_handler k₂ i free (omega (arith, v.room, second.high))
        v.kbd_word o in
    let ports =
      p₃
      ∙ ap (irq_clear_mask bus 1)
          (with_syscall_ports bus im v k₁ second.irqs second.bump high second.other ∙ p₁) in
    (
      k₃,
      ap (λ x. and_then x (λ k. init_kbd bus im.kbd_handler (with_syscall bus im k))) e₁ ∙ e₃,
      registered-IsUp bus pics pit im v m b σ k₁ k₃ r₁ r₃ ports,
    )

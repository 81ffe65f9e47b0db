-- ===== src/Startup/Cmain.antt =====
-- cmain.c: the start of the kernel up to the keyboard, with the calls of memory.c, irq.c, pit.c and
-- keyboard.c in their order. gdt_flush, the cleared screen and what printf shows are left out; they touch
-- neither the allocator nor the interrupts.
pub mod Tables
pub mod Up
pub mod Masks
pub mod Start
use frog_os.Base.{ℕ, List, [], replicate, true}
use frog_os.Memory.{Mem}
use frog_os.Alloc.{init_mem}
use frog_os.Irq.{Bus, num_irqs, install_irq_handler}
use frog_os.Irq.Idt.{set_irqs}
use frog_os.Startup.{Kernel, Started, started, stuck, set_pit, init_kbd}

-- Where the linker puts what the calls need: the kernel's end, the interrupt descriptor table, the entry
-- points, the two handlers and the static record of the system call's handler.
pub record Image : Type 0 where
  pub kernel_end : ℕ
  pub idt : ℕ
  pub entry : ℕ → ℕ
  pub pit_handler : ℕ
  pub kbd_handler : ℕ
  pub irq48_h : ℕ

abbrev pub and_then : {bus : Bus} → Started bus → (Kernel bus → Started bus) → Started bus
and_then (started k) f = f k
and_then stuck f = stuck

-- With the tables of irq.c as the loader leaves them, empty.
abbrev pub tables : (bus : Bus) → Image → Mem → bus.State → Kernel bus
tables bus im m σ =
    let s = init_mem im.kernel_end m in
    let (m', σ') = set_irqs bus im.idt im.entry s.bytes σ in
    record {
      high_mem = s.high_mem;
      irqs = record { table = replicate num_irqs 0; bytes = m'; ports = σ'; flag = true };
    }

abbrev pub with_syscall : (bus : Bus) → Image → Kernel bus → Kernel bus
with_syscall bus im k = record k { irqs = install_irq_handler bus 16 im.irq48_h k.irqs }

unfoldable pub start : (bus : Bus) → Image → Mem → bus.State → Started bus
start bus im m σ =
    and_then (set_pit bus im.pit_handler (tables bus im m σ))
      (λ k. init_kbd bus im.kbd_handler (with_syscall bus im k))

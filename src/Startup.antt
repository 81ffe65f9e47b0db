-- ===== src/Startup.antt =====
-- keyboard.c and pit.c: the handlers of the keyboard and the timer, and their registration: each
-- allocates a handler record, fills it in, and installs it. The allocator and the chains of irq.c share
-- the memory.
pub mod Install
pub mod Handlers
pub mod Steps
pub mod Cmain
mod Tests
use frog_os.Base.{ℕ, ◌+◌, u64, ◌==◌, if◌then◌else◌, true, false}
use frog_os.Memory.{Mem, store32}
use frog_os.Alloc.{Store, alloc, returns, out_of_fuel}
use frog_os.Irq.{Bus, Irqs, install_irq_handler}
use frog_os.Keyboard.Decoder.{Kbd, Outcome, decode}

-- The interrupts' state, the memory in it, and `high_mem`.
pub record Kernel (bus : Bus) : Type 0 where
  pub high_mem : ℕ
  pub irqs : Irqs bus

-- `stuck` is a walk of `alloc` that has not ended.
pub data Started (bus : Bus) : Type 0 where
  started : Kernel bus → Started bus
  stuck : Started bus

abbrev pub store_of : {bus : Bus} → Kernel bus → Store
store_of k = record { high_mem = k.high_mem; bytes = k.irqs.bytes }

-- The fields of a record, in the order in which the source writes them.
unfoldable pub write_kbd : ℕ → ℕ → Mem → Mem
write_kbd handler code m =
    let m₁ = store32 m (handler + 4) 0 in
    let m₂ = store32 m₁ handler code in store32 m₂ (handler + 8) 0

unfoldable pub write_pit : ℕ → ℕ → Mem → Mem
write_pit handler code m =
    let m₁ = store32 m handler code in
    let m₂ = store32 m₁ (handler + 8) 0 in store32 m₂ (handler + 4) 0

module _ (bus : Bus) where
  unfoldable pub kbd_handler : Kbd → bus.State → Outcome × bus.State
  kbd_handler k σ = let (c, σ') = bus.inportb 0x60 σ in (decode c k, σ')

  -- `kbd_handler` is the address `code`.
  unfoldable pub init_kbd : ℕ → Kernel bus → Started bus
  unfolding write_kbd
  init_kbd code k = elim (alloc 12 1 (store_of k)) [
    | out_of_fuel ↦ stuck
    | returns handler s ↦
        let irqs = record k.irqs { bytes = write_kbd handler code s.bytes } in
        if handler == 0
        then started (record { high_mem = s.high_mem; irqs = record k.irqs { bytes = s.bytes } })
        else started
            (record { high_mem = s.high_mem; irqs = install_irq_handler bus 1 handler irqs })
  ]

  -- The timer's mode and its divider, with interrupts off.
  unfoldable pub program_pit : Irqs bus → Irqs bus
  program_pit s = record s {
    ports = bus.outportb 0x40 0x2e (bus.outportb 0x40 0x9c (bus.outportb 0x42 0x34 s.ports));
    flag = true;
  }

  -- `pit_handler` is the address `code`.
  unfoldable pub set_pit : ℕ → Kernel bus → Started bus
  unfolding write_pit program_pit
  set_pit code k = elim (alloc 12 1 (store_of k)) [
    | out_of_fuel ↦ stuck
    | returns handler s ↦
        let irqs = record k.irqs { bytes = write_pit handler code s.bytes } in
        if handler == 0
        then started (record { high_mem = s.high_mem; irqs = record k.irqs { bytes = s.bytes } })
        else started (record {
          high_mem = s.high_mem;
          irqs = program_pit (install_irq_handler bus 0 handler irqs);
        })
  ]

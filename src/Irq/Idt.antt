-- ===== src/Irq/Idt.antt =====
-- irq.c: the interrupt descriptor table and the setup of the two interrupt controllers. The table
-- lies at the address `idt`, which the assembler files choose; so do the addresses of the entry
-- points irq0 to irq48, the function `entry`. `idt_load` only loads the table's register.
pub mod Gates
pub mod Pics
use frog_os.Base.{ℕ, zero, suc, ◌+◌, ◌*◌, bit_and, List, [], ◌∷◌, ◌>>>◌}
use frog_os.Memory.{Mem, load16, store8, store16, memset}
use frog_os.Irq.{Bus}

-- The fields of an `idt_entry`: base_lo, sel, always0, flags and base_hi.
unfoldable pub idt_set_gate : ℕ → Mem → ℕ → ℕ → ℕ → ℕ → Mem
unfolding store16 store8
idt_set_gate idt m num func sel flags =
    let at = idt + 8 * num in
    let m₁ = store16 m at (bit_and func 0xffff) in
    let m₂ = store16 m₁ (at + 2) sel in
    let m₃ = store8 m₂ (at + 4) 0 in
    let m₄ = store8 m₃ (at + 5) flags in store16 m₄ (at + 6) (bit_and (func >>> 16) 0xffff)

-- The calls of `idt_set_gate` for the first entries, in their order.
unfoldable pub set_gates : ℕ → (ℕ → ℕ) → ℕ → Mem → Mem
set_gates idt entry zero m = m
set_gates idt entry (suc n) m = idt_set_gate idt (set_gates idt entry n m) n (entry n) 0x08 0x8e

-- The writes that initialise the controllers, and the last two, which mask their lines.
abbrev pub pic_writes : List (ℕ × ℕ)
pic_writes =
    (0x20, 0x11)
    ∷ (0xa0, 0x11)
    ∷ (0x21, 0x20)
    ∷ (0xa1, 0x28)
    ∷ (0x21, 0x04)
    ∷ (0xa1, 0x02)
    ∷ (0x21, 0x01)
    ∷ (0xa1, 0x01)
    ∷ (0x21, 0xfb)
    ∷ (0xa1, 0xff)
    ∷ []

unfoldable pub write_all : (bus : Bus) → List (ℕ × ℕ) → bus.State → bus.State
write_all bus [] σ = σ
write_all bus ((p, v) ∷ ws) σ = write_all bus ws (bus.outportb p v σ)

unfoldable pub set_irqs : (bus : Bus) → ℕ → (ℕ → ℕ) → Mem → bus.State → Mem × bus.State
unfolding set_gates
set_irqs bus idt entry m σ =
    (set_gates idt entry 49 (memset m idt 0 2048), write_all bus pic_writes σ)

-- ===== src/Irq.antt =====
-- irq.c: the handler chains, the masks of the two interrupt controllers and the dispatcher. A
-- handler record `irq_handler_t` at address `p` is the function at `p`, its data at `p + 4` and the
-- next record's address at `p + 8`; its code is the parameter `call` of the dispatcher. The port
-- space is the parameter `bus`.
pub mod Chain
pub mod Dispatch
pub mod Handlers
pub mod Idt
pub mod Masks
pub mod Unmasking
mod Tests
use frog_os.Base.{ℕ, zero, suc, ◌+◌, ◌-◌, ◌^◌, bit_and, bit_or, u8, not32, ltb, leb, ◌==◌, not}
use frog_os.Base.{◌<<<◌, ◌&&◌, if◌then◌else◌, List, [], ◌∷◌, get_or, set, codes, Bool, true}
use frog_os.Base.{Option, none, some}
use frog_os.Memory.{Mem, load32, store32}

-- Byte accesses to the ports, include/port.h; a read may change the device.
pub record Bus : Type 1 where
  pub State : Type 0
  pub inportb : ℕ → State → ℕ × State
  pub outportb : ℕ → ℕ → State → State

-- The number of entries of `irq_handlers`.
abbrev pub num_irqs : ℕ
num_irqs = 18

abbrev pub handler_of : Mem → ℕ → ℕ
handler_of m p = load32 m p

abbrev pub data_of : Mem → ℕ → ℕ
data_of m p = load32 m (p + 4)

abbrev pub next_of : Mem → ℕ → ℕ
next_of m p = load32 m (p + 8)

-- The table of chains, the memory, the ports and the interrupt flag.
pub record Irqs (bus : Bus) : Type 0 where
  pub table : List ℕ
  pub bytes : Mem
  pub ports : bus.State
  pub flag : Bool

-- The data port of the controller that serves a line.
unfoldable pub mask_port : ℕ → ℕ
mask_port irq = if leb 8 irq then 0xa1 else 0x21

unfoldable pub mask_bit : ℕ → ℕ
mask_bit irq = 1 <<< (if leb 8 irq then irq - 8 else irq)

-- More records than this do not lie apart in 32 bits of address.
unfoldable pub max_handlers : ℕ
max_handlers = 2 ^ 29

-- The loop of `uninstall_irq_handler` at `ptr`; `none` is a walk that has not ended.
unfoldable pub unlink : ℕ → ℕ → ℕ → Mem → Option Mem
unlink zero ptr handler m = none
unlink (suc fuel) ptr handler m =
    let rest = unlink fuel (next_of m ptr) handler m in
    if ptr == 0
    then some m
    else (if next_of m ptr == handler then some (store32 m (ptr + 8) (next_of m handler)) else rest)

module _ (bus : Bus) where
  open bus use {State, inportb, outportb}

  unfoldable pub irq_set_mask : ℕ → State → State
  unfolding mask_port mask_bit
  irq_set_mask irq σ =
      let (v, σ') = inportb (mask_port irq) σ in
      outportb (mask_port irq) (u8 (bit_or v (mask_bit irq))) σ'

  unfoldable pub irq_clear_mask : ℕ → State → State
  unfolding mask_port mask_bit
  irq_clear_mask irq σ =
      let (v, σ') = inportb (mask_port irq) σ in
      let cleared = outportb (mask_port irq) (u8 (bit_and v (not32 (mask_bit irq)))) σ' in
      if leb 16 irq then σ else cleared

  -- `irq_clear_mask` ends with `sti` unless it returns early, and `install_irq_handler` always.
  unfoldable pub install_irq_handler : ℕ → ℕ → Irqs bus → Irqs bus
  install_irq_handler irq handler s =
      let head = get_or s.table irq 0 in
      record {
        table = set s.table irq handler;
        bytes = store32 s.bytes (handler + 8) head;
        ports = if head == 0 then irq_clear_mask irq s.ports else s.ports;
        flag = true;
      }

  -- The unlinking of a record, without the mask.
  unfoldable pub remove_handler : ℕ → ℕ → Irqs bus → Option (List ℕ × Mem)
  remove_handler irq handler s =
      let head = get_or s.table irq 0 in
      let walked = unlink max_handlers head handler s.bytes in
      if head == handler
      then some (set s.table irq (next_of s.bytes handler), s.bytes)
      else elim walked [ none ↦ none | some m ↦ some (s.table, m) ]

  unfoldable pub uninstall_irq_handler : ℕ → ℕ → Irqs bus → Option (Irqs bus)
  unfolding remove_handler
  uninstall_irq_handler irq handler s = elim (remove_handler irq handler s) [
    | none ↦ none
    | some (table, m) ↦ some (record {
      table = table;
      bytes = m;
      ports =
          if (get_or table irq 0 == 0) && not (irq == 2) then irq_set_mask irq s.ports else s.ports;
      flag = true;
    })
  ]

-- The texts of the exceptions, which `puts` shows, without the 0 that ends them.
abbrev pub exception_messages : List (List ℕ)
exception_messages =
    codes "Division By Zero"
    ∷ codes "Debug"
    ∷ codes "Non Maskable Interrupt"
    ∷ codes "Breakpoint"
    ∷ codes "Into Detected Overlow"
    ∷ codes "Out of Bounds"
    ∷ codes "Invalid Opcode"
    ∷ codes "No Coprocessor"
    ∷ codes "Double Fault"
    ∷ codes "Coprocessor Segment Overrun"
    ∷ codes "Bad TSS"
    ∷ codes "Segment Not Present"
    ∷ codes "Stack Fault"
    ∷ codes "General Protection Fault"
    ∷ codes "Page Fault"
    ∷ codes "Unknown Interrupt"
    ∷ codes "Coprocessor Fault"
    ∷ codes "Alignment Check"
    ∷ codes "Machine Check"
    ∷ codes "Reserved"
    ∷ codes "Reserved"
    ∷ codes "Reserved"
    ∷ codes "Reserved"
    ∷ codes "Reserved"
    ∷ codes "Reserved"
    ∷ codes "Reserved"
    ∷ codes "Reserved"
    ∷ codes "Reserved"
    ∷ codes "Reserved"
    ∷ codes "Reserved"
    ∷ codes "Reserved"
    ∷ codes "Reserved"
    ∷ []

-- The fields of `struct regs` that the dispatcher reads.
pub record Regs : Type 0 where
  pub int_no : ℕ
  pub err_code : ℕ
  pub eip : ℕ
  pub eax : ℕ

-- What an interrupt comes to: an exception shows its message, a page fault also four numbers, and stops
-- the machine.
pub data Served (bus : Bus) : Type 0 where
  halted : List ℕ → List ℕ → Served bus
  resumed : Irqs bus → Served bus
  out_of_fuel : Served bus

-- The dispatcher, given what a handler does with its data.
module _ (bus : Bus) (call : ℕ → ℕ → Irqs bus → Irqs bus) where
  unfoldable pub run_chain : ℕ → ℕ → Irqs bus → Option (Irqs bus)
  run_chain zero ptr s = none
  run_chain (suc fuel) ptr s =
      let s' = call (handler_of s.bytes ptr) (data_of s.bytes ptr) s in
      let rest = run_chain fuel (next_of s'.bytes ptr) s' in if ptr == 0 then some s else rest

  -- End of interrupt, to the second controller for its lines and to the first.
  unfoldable pub end_of_interrupt : ℕ → Irqs bus → Irqs bus
  end_of_interrupt int_no s =
      let second = bus.outportb 0xa0 0x20 s.ports in
      record s { ports = bus.outportb 0x20 0x20 (if leb 40 int_no then second else s.ports) }

  -- `cr2` is the register of the address that a page fault is about.
  unfoldable pub irq_handler : ℕ → Regs → Irqs bus → Served bus
  irq_handler cr2 r s =
      let text = get_or exception_messages r.int_no [] in
      if r.int_no == 14
      then halted text (r.err_code ∷ cr2 ∷ r.eip ∷ r.eax ∷ [])
      else if ltb r.int_no 32
      then halted text []
      else elim (run_chain max_handlers (get_or s.table (r.int_no - 32) 0) s) [
        | none ↦ out_of_fuel
        | some s' ↦ resumed (end_of_interrupt r.int_no s')
      ]

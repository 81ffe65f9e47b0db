-- ===== src/Startup/Steps.antt =====
-- A registration on a line that has no handler yet, seen from every other line, from the memory outside
-- of the record and from the ports.
use frog_os.Base.{ℕ, ◌+◌, ◌^◌, ◌<◌, ◌≤◌, ◌≡◌, ◌≢◌, ◌⊎◌, refl, arith, inl, inr, List, [], set}
use frog_os.Alloc.{Store}
use frog_os.Alloc.Bump.{IsBump, alloc_bump, alloc_bump-IsBytes}
use frog_os.Memory.{Mem}
use frog_os.Irq.{Bus, install_irq_handler, irq_clear_mask}
use frog_os.Irq.Handlers.{IsIrqs, Installed}
use frog_os.Startup.{
  Kernel, started, store_of, write_kbd, write_pit, init_kbd, set_pit, program_pit,
}
use frog_os.Startup.Install.{AllOff, IsReady}
use frog_os.Startup.Handlers.{Fills, write_kbd-Fills, write_pit-Fills, with_handler, programmed}
use frog_os.Startup.Handlers.{init_kbd-with_handler, set_pit-programmed, room-IsReady}
use frog_os.Startup.Handlers.{programmed-IsReady, with_handler-outside}

pub record Registered (bus : Bus) (limit irq code : ℕ) (k k' : Kernel bus) : Type 0 where
  pub ready :
      (j : ℕ) (ys : List ℕ)
      → j ≢ irq
      → AllOff k.high_mem limit ys
      → Installed bus k.irqs j ys
      → IsReady bus limit irq j k.high_mem code [] ys k'
  pub frame : (x : ℕ) → (x < k.high_mem) ⊎ (k.high_mem + 24 ≤ x) → k'.irqs.bytes x ≡ k.irqs.bytes x
  pub table : k'.irqs.table ≡ set k.irqs.table irq k.high_mem

module _ (bus : Bus) (limit code : ℕ) (k : Kernel bus) (valid : IsIrqs bus k.irqs)
    (bump : IsBump limit (store_of k)) (room : k.high_mem + 16 < limit) (word : code < 2 ^ 32) where
  with_handler-Registered :
      (irq : ℕ) (w : ℕ → ℕ → Mem → Mem) (s : Store)
      → irq < 18
      → Installed bus k.irqs irq []
      → Fills w
      → s.high_mem ≡ k.high_mem + 16
      → IsBump limit s
      → ((x : ℕ) → (s.bytes x ≡ k.irqs.bytes x) ⊎ ((s.high_mem ≤ x) × (x < s.high_mem + 8)))
      → ((x : ℕ) → s.bytes x < 256)
      → Registered bus limit irq code k (with_handler bus w irq code k s)
  unfolding with_handler install_irq_handler
  with_handler-Registered irq w s in_table line fills next free same b = record {
    ready = λ j ys ne off other.
        room-IsReady bus limit irq j code [] ys k valid bump in_table ne word tt off line other w
          fills s next b free same;
    frame = with_handler-outside bus w irq code k s fills next same;
    table = refl;
  }

  -- The ports after a line's first handler: the line is unmasked.
  with_handler_ports :
      (irq : ℕ) (w : ℕ → ℕ → Mem → Mem) (s : Store)
      → Installed bus k.irqs irq []
      → (with_handler bus w irq code k s).irqs.ports ≡ irq_clear_mask bus irq k.irqs.ports
  unfolding with_handler install_irq_handler
  with_handler_ports irq w s line = rw line refl

  pub init_kbd-Registered :
      Installed bus k.irqs 1 []
      → (k' : Kernel bus) × (init_kbd bus code k ≡ started k')
        × Registered bus limit 1 code k k'
        × (k'.irqs.ports ≡ irq_clear_mask bus 1 k.irqs.ports)
  init_kbd-Registered line =
      elim (alloc_bump limit (store_of k) bump 12 0 (omega arith) (omega arith)) [
        | inr (full, e) ↦ absurd (omega arith)
        | inl (enough, (s, e, next, free, same)) ↦
            let b =
              alloc_bump-IsBytes limit (store_of k) bump 12 0 s (omega arith) (omega arith) enough e
                valid.bytes in
            (
              with_handler bus write_kbd 1 code k s,
              init_kbd-with_handler bus code k s bump.start e,
              with_handler-Registered 1 write_kbd s (omega arith) line write_kbd-Fills next free
                  same b,
              with_handler_ports 1 write_kbd s line,
            )
      ]

  -- The timer's mode and its divider follow.
  pub set_pit-Registered :
      Installed bus k.irqs 0 []
      → (k' : Kernel bus) × (set_pit bus code k ≡ started k')
        × Registered bus limit 0 code k k'
        × (k'.irqs.ports
            ≡ bus.outportb 0x40 0x2e (
                bus.outportb 0x40 0x9c
                  (bus.outportb 0x42 0x34 (irq_clear_mask bus 0 k.irqs.ports))))
  unfolding programmed program_pit
  set_pit-Registered line =
      elim (alloc_bump limit (store_of k) bump 12 0 (omega arith) (omega arith)) [
        | inr (full, e) ↦ absurd (omega arith)
        | inl (enough, (s, e, next, free, same)) ↦
            let b =
              alloc_bump-IsBytes limit (store_of k) bump 12 0 s (omega arith) (omega arith) enough e
                valid.bytes in
            let r =
              with_handler-Registered 0 write_pit s (omega arith) line write_pit-Fills next free
                same b in
            let k' = with_handler bus write_pit 0 code k s in
            (
              programmed bus k',
              set_pit-programmed bus code k s bump.start e,
              record {
                ready = λ j ys ne off other.
                    programmed-IsReady bus limit 0 j k.high_mem code [] ys k'
                      (r.ready j ys ne off other);
                frame = r.frame;
                table = r.table;
              },
              rw (with_handler_ports 0 write_pit s line) refl,
            )
      ]

-- ===== src/Startup/Tests.antt =====
-- The registration's theorems at a concrete kernel.
use frog_os.Base.{ℕ, refl, arith, [], ◌∷◌, false, set, replicate}
use frog_os.Memory.{Mem, store32, load32}
use frog_os.Memory.Laws.{IsBytes, store32-IsBytes}
use frog_os.Alloc.Bump.{IsBump}
use frog_os.Irq.{Bus}
use frog_os.Irq.Handlers.{IsIrqs, Installed, set_words, zero_words}
use frog_os.Base.{◌+◌, ◌*◌, ◌%◌, ◌^◌, ◌≡◌, u8, ◌==◌, if◌then◌else◌, ◌&&◌, ◌||◌, not, ◌-◌}
use frog_os.Irq.Masks.{HasPics}
use frog_os.Startup.Cmain.{Image, start}
use frog_os.Startup.Cmain.Tables.{IsImage, first_block}
use frog_os.Startup.Cmain.Up.{HasPit, IsUp}
use frog_os.Startup.Cmain.Start.{start-IsUp}
use frog_os.Startup.{Kernel, started, store_of, init_kbd, kbd_handler}
use frog_os.Keyboard.Decoder.{Kbd}
use frog_os.Irq.{Irqs, Regs, halted, resumed, max_handlers, irq_handler}
use frog_os.Irq.Dispatch.{calls, call_all, irq_handler-calls}
use frog_os.Base.{◌⊎◌, ◌≤◌, ◌<◌, leb}
use frog_os.Startup.Handlers.{Registers, init_kbd-Registers}

-- Ports that keep the byte last written.
abbrev one_latch : Bus
one_latch = record { State = ℕ; inportb = λ p σ. (σ, σ); outportb = λ p v σ. v }

-- One free block, from 0x3000 to 0x20000, and one handler, at 0x1000 on line 2.
abbrev memory : Mem
memory = store32 (store32 (λ x. 0) 0x3000 0x1d000) 0x1000 0x7000

abbrev kernel : Kernel one_latch
kernel = record {
  high_mem = 0x3000;
  irqs = record {
    table = set (replicate 18 0) 2 0x1000;
    bytes = memory;
    ports = 0xff;
    flag = false;
  };
}

memory-IsBytes : IsBytes memory
memory-IsBytes =
    store32-IsBytes _ 0x1000 0x7000 (store32-IsBytes (λ x. 0) 0x3000 0x1d000 (λ x. omega arith))

kernel-IsBump : IsBump 0x20000 (store_of kernel)
unfolding load32 store32
kernel-IsBump = record {
  start = omega arith;
  aligned = refl;
  below = omega arith;
  limit_aligned = refl;
  limit_in = omega arith;
  size = refl;
  last = refl;
}

kernel-IsIrqs : IsIrqs one_latch kernel.irqs
kernel-IsIrqs = record {
  entries = refl;
  words = set_words (replicate 18 0) 2 0x1000 (omega arith) (omega arith) (zero_words 18);
  bytes = memory-IsBytes;
}

line_2 : Installed one_latch kernel.irqs 2 (0x1000 ∷ [])
unfolding load32 store32
line_2 = (refl, omega arith, tt, refl)

init_kbd-Registers_example :
    Registers one_latch 0x20000 1 2 0x7100 []
      (0x1000 ∷ [])
      kernel
      (init_kbd one_latch 0x7100 kernel)
init_kbd-Registers_example =
    init_kbd-Registers one_latch 0x20000 2 0x7100 [] (0x1000 ∷ []) kernel kernel-IsIrqs
      kernel-IsBump (omega arith) tt (omega arith, tt) line_2 refl (omega arith)

-- Ports that keep the bytes last written, each its own, but for the words of the controllers'
-- initialisation: 0x10000 above a data port is the count of those that its controller waits for.
abbrev write : ℕ → ℕ → (ℕ → ℕ) → ℕ → ℕ
write p v σ q =
    if (p == 0x20) || (p == 0xa0)
    then (if (v == 0x11) && (q == p + 0x10001) then 3 else σ q)
    else if ((p == 0x21) || (p == 0xa1)) && not (σ (p + 0x10000) == 0)
    then (if q == p + 0x10000 then σ q - 1 else σ q)
    else if q == p
    then v
    else σ q

abbrev latches : Bus
latches = record { State = ℕ → ℕ; inportb = λ p σ. (u8 (σ p), σ); outportb = write }

latches-HasPics : HasPics latches
latches-HasPics = record {
  mask = λ p σ. u8 (σ p);
  mask_byte = λ p σ. omega arith;
  waits = λ p σ. σ (p + 0x10000);
  begins = λ c σ h. ground arith;
  words = λ p v n σ h e. ground arith;
  idle = λ p v σ h e. ground arith;
  reads = λ p σ h e. refl;
  writes = λ p v σ h small e. ground arith;
  other = λ p q v σ hp hq ne. ground arith;
  other_waits = λ p q v σ hp hq ne. ground arith;
  other_begins = λ c q σ hc hq ne. ground arith;
}

latches-HasPit : HasPit latches latches-HasPics
unfolding latches-HasPics
latches-HasPit = record {
  timer = λ p q v σ lo hi h. ground arith;
  timer_waits = λ p q v σ lo hi h. ground arith;
}

abbrev all_masked : ℕ → ℕ
all_masked p = 255

-- A kernel up to 0x5001, with its table at 0x2000 and the static record at 0x3000.
abbrev image : Image
image = record {
  kernel_end = 0x5001;
  idt = 0x2000;
  entry = λ n. (0x100 + n) * 16 % 2 ^ 32;
  pit_handler = 0x1200;
  kbd_handler = 0x1300;
  irq48_h = 0x3000;
}

image-IsImage : IsImage image
image-IsImage = record {
  start = omega arith;
  room = omega arith;
  idt_in = omega arith;
  entries = λ i. omega arith;
  pit_word = omega arith;
  kbd_word = omega arith;
  record_in = omega arith;
  record_apart = omega arith;
}

abbrev loaded : Mem
loaded = store32 (λ x. 0) 0x3000 0x1400

loaded-IsBytes : IsBytes loaded
loaded-IsBytes = store32-IsBytes (λ x. 0) 0x3000 0x1400 (λ x. omega arith)

start-IsUp_example :
    (k : Kernel latches) × (start latches image loaded all_masked ≡ started k)
    × IsUp latches latches-HasPics image loaded (first_block image) k
start-IsUp_example =
    start-IsUp latches latches-HasPics latches-HasPit image image-IsImage loaded loaded-IsBytes
      all_masked

-- The keyboard's handler, at the address 0x7000, in a decoder's state.
abbrev decoder : Kbd
decoder = record {
  state = 0;
  shiftstate = 0;
  ring = record { buffer = replicate 256 0; head = 0; tail = 0; size = 0 };
}

abbrev call : ℕ → ℕ → Irqs latches → Irqs latches
call f d s = record s {
  ports = if f == 0x7000 then (kbd_handler latches decoder s.ports).1 else s.ports;
}

-- A key's interrupt, where the record at 0x1000 serves line 1.
abbrev key : Regs
key = record { int_no = 33; err_code = 0; eip = 0x1000; eax = 0 }

abbrev keyboard : Irqs latches
keyboard = record {
  table = set (replicate 18 0) 1 0x1000;
  bytes = memory;
  ports = all_masked;
  flag = false;
}

line_1 : Installed latches keyboard 1 (0x1000 ∷ [])
unfolding load32 store32
line_1 = (refl, omega arith, tt, refl)

irq_handler-calls_example :
    let t = call_all latches call (calls memory (0x1000 ∷ [])) keyboard in
    ((32 ≤ 33)
      × (irq_handler latches call 0 key keyboard
          ≡ resumed (record t {
            ports =
                latches.outportb 0x20 0x20
                  (if leb 40 33 then latches.outportb 0xa0 0x20 t.ports else t.ports);
          })))
    ⊎ ((33 < 32) × (irq_handler latches call 0 key keyboard ≡ halted [] []))
unfolding max_handlers
irq_handler-calls_example =
    irq_handler-calls latches call 0 key (0x1000 ∷ []) keyboard (omega arith)
      ((λ s. ((refl, refl, refl), tt)), tt) line_1

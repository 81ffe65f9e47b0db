-- ===== src/Startup/Cmain/Tables.antt =====
-- What memory.c and irq.c set up, as the registration of the first handlers finds it.
use frog_os.Base.{ℕ, zero, suc, ◌+◌, ◌*◌, ◌/◌, ◌^◌, ◌<◌, ◌≤◌, ◌≡◌, ◌⊎◌, refl, ◌∙◌, arith}
use frog_os.Base.{[], get_or, replicate}
use frog_os.Memory.{Mem}
use frog_os.Memory.Laws.{IsBytes, store32-IsBytes, store32-outside}
use frog_os.Alloc.{init_mem}
use frog_os.Alloc.Bump.{IsBump, IsBump-kept, round_up_16}
use frog_os.Alloc.Run.{init_mem-IsBump}
use frog_os.Irq.{Bus}
use frog_os.Irq.Handlers.{IsIrqs, Installed, zero_words}
use frog_os.Irq.Idt.Gates.{set_irqs-IsBytes, set_irqs-outside}
use frog_os.Startup.{store_of}
use frog_os.Startup.Cmain.{Image, tables}

-- Where `init_mem` lets the free block end.
abbrev pub limit : ℕ
limit = 0xc0c00000

-- A kernel image below the free block, with room behind it; the static record lies apart from the
-- interrupt descriptor table.
pub record IsImage (im : Image) : Type 0 where
  pub start : 0 < im.kernel_end
  pub room : im.kernel_end + 64 ≤ limit
  pub idt_in : im.idt + 2048 ≤ im.kernel_end
  pub entries : (i : ℕ) → im.entry i < 2 ^ 32
  pub pit_word : im.pit_handler < 2 ^ 32
  pub kbd_word : im.kbd_handler < 2 ^ 32
  pub record_in : (0 < im.irq48_h) × (im.irq48_h + 12 ≤ im.kernel_end)
  pub record_apart : (im.irq48_h + 12 ≤ im.idt) ⊎ (im.idt + 2048 ≤ im.irq48_h)

-- The address of the first block that `alloc` gives out.
abbrev pub first_block : Image → ℕ
first_block im = (im.kernel_end + 15) / 16 * 16

pub no_entry : (n i : ℕ) → get_or {A = ℕ} (replicate n 0) i 0 ≡ 0
no_entry zero i = refl
no_entry (suc n) zero = refl
no_entry (suc n) (suc i) = no_entry n i

module _ (bus : Bus) (im : Image) (v : IsImage im) (m : Mem) (b : IsBytes m) (σ : bus.State) where
  pub tables_high : (tables bus im m σ).high_mem ≡ first_block im
  unfolding init_mem
  tables_high = round_up_16 im.kernel_end (omega (arith, v.room))

  init_mem-IsBytes : IsBytes (init_mem im.kernel_end m).bytes
  unfolding init_mem
  init_mem-IsBytes = store32-IsBytes _ _ _ (store32-IsBytes m _ _ b)

  pub tables-IsIrqs : IsIrqs bus (tables bus im m σ).irqs
  tables-IsIrqs = record {
    entries = refl;
    words = zero_words 18;
    bytes = set_irqs-IsBytes im.idt im.entry v.entries bus _ σ init_mem-IsBytes;
  }

  pub tables-IsBump : IsBump limit (store_of (tables bus im m σ))
  tables-IsBump =
      let (free, le) = init_mem-IsBump im.kernel_end m v.start (omega (arith, v.room)) in
      IsBump-kept limit (init_mem im.kernel_end m) (store_of (tables bus im m σ)) refl
        (λ x ge. set_irqs-outside im.idt im.entry v.entries bus _ σ x (omega (arith, v.idt_in)))
        free

  pub tables-line : (irq : ℕ) → Installed bus (tables bus im m σ).irqs irq []
  tables-line irq = no_entry 18 irq

  -- The image behind and in front of the table is as it was loaded.
  pub tables-outside :
      (x : ℕ)
      → x < im.kernel_end
      → (x < im.idt) ⊎ (im.idt + 2048 ≤ x)
      → (tables bus im m σ).irqs.bytes x ≡ m x
  unfolding init_mem
  tables-outside x inside off =
      let high = tables_high in
      set_irqs-outside im.idt im.entry v.entries bus _ σ x off
      ∙ store32-outside _ _ _ x (omega arith)
      ∙ store32-outside m _ _ x (omega arith)

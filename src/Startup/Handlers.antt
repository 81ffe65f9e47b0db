-- ===== src/Startup/Handlers.antt =====
-- The keyboard's and the timer's handler after their registration.
use frog_os.Base.{ℕ, ◌+◌, ◌^◌, ◌≤◌, ◌<◌, ◌≡◌, ◌≢◌, ◌⊎◌, refl, ◌∙◌, sym, arith, inl, inr}
use frog_os.Base.{List, ◌==◌, false}
use mathlib.Core.Path.{subst}
use frog_os.Memory.{Mem}
use frog_os.Memory.Laws.{IsBytes, load32-same, store32-IsBytes, store32-outside}
use frog_os.Memory.Laws.{load32-store32_self, load32-store32_ne}
use frog_os.Alloc.{Store, alloc, returns}
use frog_os.Alloc.Bump.{IsBump, alloc_bump, alloc_bump-IsBytes}
use frog_os.Irq.{Bus, install_irq_handler, handler_of, data_of}
use frog_os.Irq.Handlers.{IsIrqs, Installed}
use frog_os.Startup.{Kernel, Started, started, store_of, write_kbd, write_pit, init_kbd, set_pit}
use frog_os.Startup.{program_pit}
use frog_os.Startup.Install.{AllOff, IsReady, install-IsReady}

-- A way to fill in the twelve bytes of a handler record.
pub record Fills (w : ℕ → ℕ → Mem → Mem) : Type 0 where
  pub function : (p code : ℕ) (m : Mem) → code < 2 ^ 32 → handler_of (w p code m) p ≡ code
  pub no_data : (p code : ℕ) (m : Mem) → data_of (w p code m) p ≡ 0
  pub outside : (p code : ℕ) (m : Mem) (x : ℕ) → (x < p) ⊎ (p + 12 ≤ x) → w p code m x ≡ m x
  pub bytes : (p code : ℕ) (m : Mem) → IsBytes m → IsBytes (w p code m)

pub write_kbd-Fills : Fills write_kbd
unfolding write_kbd
write_kbd-Fills = record {
  function =
      λ p code m h. load32-store32_ne _ (p + 8) 0 p (omega arith) ∙ load32-store32_self _ p code h;
  no_data = λ p code m.
      load32-store32_ne _ (p + 8) 0 (p + 4) (omega arith)
      ∙ load32-store32_ne _ p code (p + 4) (omega arith)
      ∙ load32-store32_self m (p + 4) 0 (omega arith);
  outside = λ p code m x out.
      store32-outside _ (p + 8) 0 x (omega arith)
      ∙ store32-outside _ p code x (omega arith)
      ∙ store32-outside m (p + 4) 0 x (omega arith);
  bytes = λ p code m b. store32-IsBytes _ _ _ (store32-IsBytes _ _ _ (store32-IsBytes m _ _ b));
}

pub write_pit-Fills : Fills write_pit
unfolding write_pit
write_pit-Fills = record {
  function = λ p code m h.
      load32-store32_ne _ (p + 4) 0 p (omega arith)
      ∙ load32-store32_ne _ (p + 8) 0 p (omega arith)
      ∙ load32-store32_self m p code h;
  no_data = λ p code m. load32-store32_self _ (p + 4) 0 (omega arith);
  outside = λ p code m x out.
      store32-outside _ (p + 4) 0 x (omega arith)
      ∙ store32-outside _ (p + 8) 0 x (omega arith)
      ∙ store32-outside m p code x (omega arith);
  bytes = λ p code m b. store32-IsBytes _ _ _ (store32-IsBytes _ _ _ (store32-IsBytes m _ _ b));
}

-- The kernel with the record that `alloc` gave out, filled in and installed.
unfoldable pub with_handler :
    (bus : Bus) → (ℕ → ℕ → Mem → Mem) → ℕ → ℕ → Kernel bus → Store → Kernel bus
with_handler bus w irq code k s = record {
  high_mem = s.high_mem;
  irqs =
      install_irq_handler bus irq k.high_mem (record k.irqs { bytes = w k.high_mem code s.bytes });
}

-- The timer is programmed behind that.
unfoldable pub programmed : (bus : Bus) → Kernel bus → Kernel bus
programmed bus k = record k { irqs = program_pit bus k.irqs }

module _ (bus : Bus) (code : ℕ) (k : Kernel bus) (s : Store) (pos : 0 < k.high_mem)
    (e : alloc 12 1 (store_of k) ≡ returns k.high_mem s) where
  pub init_kbd-with_handler : init_kbd bus code k ≡ started (with_handler bus write_kbd 1 code k s)
  unfolding init_kbd with_handler
  init_kbd-with_handler =
      let on : (k.high_mem == 0) ≡ false = ground arith in rw (init_kbd, e, on) refl

  pub set_pit-programmed :
      set_pit bus code k ≡ started (programmed bus (with_handler bus write_pit 0 code k s))
  unfolding set_pit with_handler programmed
  set_pit-programmed = let on : (k.high_mem == 0) ≡ false = ground arith in rw (set_pit, e, on) refl

-- Programming the timer changes only ports.
pub programmed-IsReady :
    (bus : Bus) (limit irq j p code : ℕ) (xs ys : List ℕ) (k : Kernel bus)
    → IsReady bus limit irq j p code xs ys k
    → IsReady bus limit irq j p code xs ys (programmed bus k)
unfolding programmed program_pit
programmed-IsReady bus limit irq j p code xs ys k ready = record {
  irqs = record {
    entries = ready.irqs.entries;
    words = ready.irqs.words;
    bytes = ready.irqs.bytes;
  };
  line = ready.line;
  other = ready.other;
  enabled = refl;
  handler_code = ready.handler_code;
  handler_data = ready.handler_data;
  high = ready.high;
  bump = ready.bump;
}

-- Memory is changed only in the record and in the header behind it.
pub with_handler-outside :
    (bus : Bus) (w : ℕ → ℕ → Mem → Mem) (irq code : ℕ) (k : Kernel bus) (s : Store)
    → Fills w
    → s.high_mem ≡ k.high_mem + 16
    → ((x : ℕ) → (s.bytes x ≡ k.irqs.bytes x) ⊎ ((s.high_mem ≤ x) × (x < s.high_mem + 8)))
    → (x : ℕ) → (x < k.high_mem) ⊎ (k.high_mem + 24 ≤ x)
    → (with_handler bus w irq code k s).irqs.bytes x ≡ k.irqs.bytes x
unfolding with_handler install_irq_handler
with_handler-outside bus w irq code k s fills next same x out =
    store32-outside _ (k.high_mem + 8) _ x (omega arith)
    ∙ fills.outside k.high_mem code s.bytes x (omega arith)
    ∙ elim (same x) [ inl e ↦ e | inr (lo, hi) ↦ absurd (omega arith) ]

module _ (bus : Bus) (limit irq j code : ℕ) (xs ys : List ℕ) (k : Kernel bus)
    (valid : IsIrqs bus k.irqs) (bump : IsBump limit (store_of k)) (in_table : irq < 18)
    (ne : j ≢ irq) (word : code < 2 ^ 32) (off_xs : AllOff k.high_mem limit xs)
    (off_ys : AllOff k.high_mem limit ys) (line : Installed bus k.irqs irq xs)
    (other : Installed bus k.irqs j ys) (w : ℕ → ℕ → Mem → Mem) (fills : Fills w) where
  pub room-IsReady :
      (s : Store)
      → s.high_mem ≡ k.high_mem + 16
      → IsBytes s.bytes
      → IsBump limit s
      → ((x : ℕ) → (s.bytes x ≡ k.irqs.bytes x) ⊎ ((s.high_mem ≤ x) × (x < s.high_mem + 8)))
      → IsReady bus limit irq j k.high_mem code xs ys (with_handler bus w irq code k s)
  unfolding with_handler
  room-IsReady s next b free same =
      let p = k.high_mem in
      let m = w p code s.bytes in
      let keeps = λ (a : ℕ) (h : p + 12 ≤ a).
        load32-same a s.bytes m (λ x lo hi. fills.outside p code s.bytes x (omega arith)) in
      let free' : IsBump limit (record { high_mem = s.high_mem; bytes = m }) = record {
        start = free.start;
        aligned = free.aligned;
        below = free.below;
        limit_aligned = free.limit_aligned;
        limit_in = free.limit_in;
        size = keeps s.high_mem (omega arith) ∙ free.size;
        last = keeps (s.high_mem + 4) (omega arith) ∙ free.last;
      } in
      let outside : (x : ℕ) → (x < p) ⊎ (p + 24 ≤ x) → m x ≡ k.irqs.bytes x = λ x out.
        fills.outside p code s.bytes x (omega arith)
        ∙ elim (same x) [ inl e ↦ e | inr (lo, hi) ↦ absurd (omega arith) ] in
      subst
        (λ h. IsReady bus limit irq j p code xs ys (record {
          high_mem = h;
          irqs = install_irq_handler bus irq p (record k.irqs { bytes = m });
        }))
        (sym next)
        (install-IsReady bus limit irq j p code xs ys k.irqs m valid in_table ne bump.start
          (omega (arith, free.below, free.aligned, free.limit_aligned, bump.aligned)) bump.limit_in
          off_xs off_ys line other (fills.bytes p code s.bytes b) outside
          (fills.function p code s.bytes word) (fills.no_data p code s.bytes)
          (subst (λ h. IsBump limit (record { high_mem = h; bytes = m })) next free'))

  -- The allocation finds room for a record, or returns 0 and changes nothing.
  alloc-IsReady :
      ((k.high_mem + 16 < limit)
        × ((s : Store) × (alloc 12 1 (store_of k) ≡ returns k.high_mem s)
            × IsReady bus limit irq j k.high_mem code xs ys (with_handler bus w irq code k s)))
      ⊎ ((limit ≤ k.high_mem + 16) × (alloc 12 1 (store_of k) ≡ returns 0 (store_of k)))
  alloc-IsReady = elim (alloc_bump limit (store_of k) bump 12 0 (omega arith) (omega arith)) [
    | inr full ↦ inr full
    | inl (room, (s, e, next, free, same)) ↦
        let b =
          alloc_bump-IsBytes limit (store_of k) bump 12 0 s (omega arith) (omega arith) room e
            valid.bytes in
        inl (room, (s, e, room-IsReady s next b free same))
  ]

-- What a registration comes to: the handler's record is allocated, filled in and first of its line's
-- chain, or there is no room and nothing changes.
abbrev pub Registers :
    (bus : Bus) → ℕ → ℕ → ℕ → ℕ → List ℕ → List ℕ → Kernel bus → Started bus → Type 0
Registers bus limit irq j code xs ys k o =
    ((k.high_mem + 16 < limit)
      × ((k' : Kernel bus) × (o ≡ started k') × IsReady bus limit irq j k.high_mem code xs ys k'))
    ⊎ ((limit ≤ k.high_mem + 16) × (o ≡ started k))

module _ (bus : Bus) (limit j code : ℕ) (xs ys : List ℕ) (k : Kernel bus)
    (valid : IsIrqs bus k.irqs) (bump : IsBump limit (store_of k)) (word : code < 2 ^ 32)
    (off_xs : AllOff k.high_mem limit xs) (off_ys : AllOff k.high_mem limit ys)
    (other : Installed bus k.irqs j ys) where
  -- With one free block, and the records of the keyboard's line and of another one off it: when the
  -- block has more than 16 bytes, `init_kbd` puts a record with `kbd_handler` in front of the chain of
  -- line 1, keeps the other line's chain and enables interrupts; if not, nothing changes.
  pub init_kbd-Registers :
      Installed bus k.irqs 1 xs → j ≢ 1 → Registers bus limit 1 j code xs ys k (init_kbd bus code k)
  unfolding init_kbd
  init_kbd-Registers line ne =
      elim (alloc-IsReady bus limit 1 j code xs ys k valid bump (omega arith) ne word off_xs off_ys
        line other write_kbd write_kbd-Fills) [
          | inl (room, (s, e, ready)) ↦
              inl (room, (_, init_kbd-with_handler bus code k s bump.start e, ready))
          | inr (full, e) ↦ inr (full, rw (init_kbd, e) refl)
        ]

  -- `set_pit` does so with `pit_handler` on line 0.
  pub set_pit-Registers :
      Installed bus k.irqs 0 xs → j ≢ 0 → Registers bus limit 0 j code xs ys k (set_pit bus code k)
  unfolding set_pit
  set_pit-Registers line ne =
      elim (alloc-IsReady bus limit 0 j code xs ys k valid bump (omega arith) ne word off_xs off_ys
        line other write_pit write_pit-Fills) [
          | inl (room, (s, e, ready)) ↦ inl (
            room,
            (
              _,
              set_pit-programmed bus code k s bump.start e,
              programmed-IsReady bus limit 0 j k.high_mem code xs ys _ ready,
            ),
          )
          | inr (full, e) ↦ inr (full, rw (set_pit, e) refl)
        ]

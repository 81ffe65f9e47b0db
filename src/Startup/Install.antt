-- ===== src/Startup/Install.antt =====
-- What registering a handler does to the chains and to the allocator.
use frog_os.Base.{ℕ, ◌+◌, ◌^◌, ◌≤◌, ◌<◌, ◌≡◌, ◌≢◌, ◌⊎◌, refl, ◌∙◌, ap, arith}
use frog_os.Base.{List, [], ◌∷◌, get_or, true}
use frog_os.Memory.{Mem}
use frog_os.Memory.Laws.{IsBytes, load32-same}
use frog_os.Memory.Laws.{load32-store32_ne}
use frog_os.Alloc.Bump.{IsBump}
use frog_os.Irq.{Bus, Irqs, install_irq_handler, handler_of, data_of, next_of}
use frog_os.Irq.Chain.{AllApart, Chain}
use frog_os.Irq.Handlers.{IsIrqs, Installed, install_links}
use frog_os.Startup.{Kernel, store_of}

-- Records outside of the addresses from `lo` to `hi`.
abbrev pub AllOff : ℕ → ℕ → List ℕ → Type 0
AllOff lo hi [] = Unit
AllOff lo hi (a ∷ xs) = ((a + 12 ≤ lo) ⊎ (hi ≤ a)) × AllOff lo hi xs

AllOff-AllApart : (p hi : ℕ) (xs : List ℕ) → p + 12 ≤ hi → AllOff p hi xs → AllApart p xs
AllOff-AllApart p hi [] h o = tt
AllOff-AllApart p hi (a ∷ xs) h (o, os) = (omega arith, AllOff-AllApart p hi xs h os)

Chain-same :
    (m m' : Mem) (lo hi p : ℕ) (xs : List ℕ)
    → ((x : ℕ) → (x < lo) ⊎ (hi ≤ x) → m' x ≡ m x)
    → AllOff lo hi xs
    → Chain m p xs
    → Chain m' p xs
Chain-same m m' lo hi p [] same o e = e
Chain-same m m' lo hi p (a ∷ xs) same (o, os) (e, pos, ap, ch) =
    let next : next_of m' a ≡ next_of m a =
      load32-same (a + 8) m m' (λ x ge lt. same x (omega arith)) in
    (e, pos, ap, rw next (Chain-same m m' lo hi (next_of m a) xs same os ch))

-- A kernel in which the record at `p` is the first of its line's chain, with its function and no data;
-- another line has the chain it had, and the rest of the free block is the one free block.
pub record IsReady (bus : Bus) (limit irq j p code : ℕ) (xs ys : List ℕ) (k : Kernel bus)
    : Type 0 where
  pub irqs : IsIrqs bus k.irqs
  pub line : Installed bus k.irqs irq (p ∷ xs)
  pub other : Installed bus k.irqs j ys
  pub enabled : k.irqs.flag ≡ true
  pub handler_code : handler_of k.irqs.bytes p ≡ code
  pub handler_data : data_of k.irqs.bytes p ≡ 0
  pub high : k.high_mem ≡ p + 16
  pub bump : IsBump limit (store_of k)

-- A record at `p`, filled in behind the memory of a kernel in order.
module _ (bus : Bus) (limit irq j p code : ℕ) (xs ys : List ℕ) (s : Irqs bus) (m : Mem)
    (valid : IsIrqs bus s) (in_table : irq < 18) (ne : j ≢ irq) (pos : 0 < p)
    (room : p + 24 ≤ limit) (word : limit < 2 ^ 32) (off_xs : AllOff p limit xs)
    (off_ys : AllOff p limit ys) (line : Installed bus s irq xs) (other : Installed bus s j ys)
    (b : IsBytes m) (same : (x : ℕ) → (x < p) ⊎ (p + 24 ≤ x) → m x ≡ s.bytes x)
    (f : handler_of m p ≡ code) (d : data_of m p ≡ 0)
    (bump : IsBump limit (record { high_mem = p + 16; bytes = m })) where
  filled : Irqs bus
  filled = record s { bytes = m }

  filled-IsIrqs : IsIrqs bus filled
  unfolding filled
  filled-IsIrqs = record { entries = valid.entries; words = valid.words; bytes = b }

  pub install-IsReady :
      IsReady bus limit irq j p code xs ys (record {
        high_mem = p + 16;
        irqs = install_irq_handler bus irq p (record s { bytes = m });
      })
  unfolding filled install_irq_handler
  install-IsReady =
      let wide = λ (x : ℕ) (out : (x < p) ⊎ (limit ≤ x)). same x (omega arith) in
      let head = get_or s.table irq 0 in
      let keeps = load32-store32_ne m (p + 8) head in
      let (i, l, o, e) =
        install_links bus filled filled-IsIrqs irq p j xs ys in_table pos (omega arith) ne
          (AllOff-AllApart p limit xs (omega arith) off_xs)
          (AllOff-AllApart p limit ys (omega arith) off_ys)
          (Chain-same s.bytes m p limit (get_or s.table irq 0) xs wide off_xs line)
          (Chain-same s.bytes m p limit (get_or s.table j 0) ys wide off_ys other) in
      record {
        irqs = i;
        line = l;
        other = o;
        enabled = e;
        handler_code = keeps p (omega arith) ∙ f;
        handler_data = keeps (p + 4) (omega arith) ∙ d;
        high = refl;
        bump = record {
          start = bump.start;
          aligned = bump.aligned;
          below = bump.below;
          limit_aligned = bump.limit_aligned;
          limit_in = bump.limit_in;
          size = keeps (p + 16) (omega arith) ∙ bump.size;
          last = keeps (p + 16 + 4) (omega arith) ∙ bump.last;
        };
      }

-- ===== src/Alloc/Aligned.antt =====
-- Alignments above 16, which split a block, and what a second free block leads to.
use frog_os.Base.{ℕ, zero, suc, ◌+◌, ◌-◌, ◌*◌, ◌/◌, ◌%◌, ◌^◌, ◌≤◌, ◌<◌, ◌≡◌, ◌≢◌, refl, arith}
use frog_os.Base.{true, false, inl, inr, ◌==◌, leb, u32, sub32, ◌∙◌, ap}
use frog_os.Memory.{store32}
use frog_os.Memory.Laws.{load32-store32_self, load32-store32_ne}
use frog_os.Alloc.{Store, Result, returns, out_of_fuel, size_of, next_of}
use frog_os.Alloc.{split, carve, walk, fits, lost_at, max_blocks, alloc}
use frog_os.Alloc.Bump.{IsBump, units, round_up_16, round_up_pow, lost_zero, max_blocks-pos}

walk-suc :
    (f size align mem : ℕ) (s : Store)
    → mem ≢ 0
    → fits size align mem s.bytes ≡ false
    → walk (suc f) size align mem s ≡ walk f size align (next_of s.bytes mem) s
unfolding walk
walk-suc f size align mem s h e = let on : (mem == 0) ≡ false = ground arith in rw (on, e)

walk_here :
    (f size align mem : ℕ) (s : Store)
    → f ≢ 0
    → mem ≢ 0
    → fits size align mem s.bytes ≡ true
    → walk f size align mem s ≡ carve s mem (lost_at align mem) size
unfolding walk
walk_here zero size align mem s hf h e = absurd (hf refl)
walk_here (suc f) size align mem s hf h e = let on : (mem == 0) ≡ false = ground arith in rw (on, e)

bump_moves :
    (s : Store) (mem size : ℕ)
    → (s' : Store) × (carve s mem 0 size ≡ returns s.high_mem s') × (s'.high_mem ≡ u32 (mem + size))
unfolding carve
bump_moves s mem size =
    let m = store32 s.bytes (u32 (mem + size) + 4) (next_of s.bytes mem) in
    (
      record {
        high_mem = u32 (mem + size);
        bytes = store32 m (u32 (mem + size)) (sub32 (size_of m mem) size);
      },
      refl,
      refl,
    )

-- The first block is too small for the request, and the second one, aligned to 16, is larger than
-- it: `alloc` with the alignment 1 returns the first block, and moves `high_mem` behind the request
-- in the second.
pub alloc_second :
    (size b : ℕ) (s : Store)
    → size + 16 ≤ 2 ^ 32
    → s.high_mem ≢ 0
    → size_of s.bytes s.high_mem < units size
    → next_of s.bytes s.high_mem ≡ b
    → 0 < b
    → b % 16 ≡ 0
    → b + units size < 2 ^ 32
    → units size < size_of s.bytes b
    → size_of s.bytes b < 2 ^ 32
    → (s' : Store) × (alloc size 1 s ≡ returns s.high_mem s') × (s'.high_mem ≡ b + units size)
unfolding alloc
alloc_second size b s hs on small next pos aligned top big word =
    let r = units size in
    let lost : lost_at 1 b ≡ 0 = lost_zero 0 b (omega arith) aligned (omega arith) in
    let no_fit : fits r 1 s.high_mem s.bytes ≡ false = unfold fits in ground arith in
    let fit : fits r 1 b s.bytes ≡ true = unfold fits in rw lost (ground arith) in
    let end : u32 (b + r) ≡ b + r = omega arith in
    let (s', e, h) = bump_moves s b r in
    (
      s',
      rw (round_up_16 size hs, walk-suc max_blocks r 1 s.high_mem s on no_fit, next)
          (walk_here max_blocks r 1 b s max_blocks-pos (omega arith) fit
            ∙ ap (λ l. carve s b l r) lost
            ∙ e),
      h ∙ end,
    )

-- The store after a split: the part in front of `p` is the first free block, the part behind the
-- request the second and last one.
pub record IsSplit (limit p r : ℕ) (s s' : Store) : Type 0 where
  pub high_mem : s'.high_mem ≡ s.high_mem
  pub front_size : size_of s'.bytes s.high_mem ≡ p - s.high_mem
  pub front_next : next_of s'.bytes s.high_mem ≡ p + r
  pub back_size : size_of s'.bytes (p + r) ≡ limit - (p + r)
  pub back_next : next_of s'.bytes (p + r) ≡ 0

split-IsSplit :
    (limit p r : ℕ) (s : Store)
    → IsBump limit s
    → s.high_mem + 16 ≤ p
    → p + r < limit
    → (s' : Store) × (split s s.high_mem (p - s.high_mem) r ≡ returns p s') × IsSplit limit p r s s'
unfolding split
split-IsSplit limit p r s b hp hr =
    let h = s.high_mem in
    let new : u32 (h + (p - h) + r) ≡ p + r = omega (arith, b.limit_in) in
    let at : u32 (h + (p - h)) ≡ p = omega (arith, b.limit_in) in
    let taken : u32 (p - h + r) ≡ p - h + r = omega (arith, b.limit_in) in
    let old = load32-store32_ne s.bytes (p + r + 4) 0 h (inl (omega arith)) in
    let left : sub32 (limit - h) (p - h + r) ≡ limit - (p + r) = omega (arith, b.limit_in) in
    let m₁ = store32 s.bytes (p + r + 4) 0 in
    let m₂ = store32 m₁ (p + r) (limit - (p + r)) in
    let m₃ = store32 m₂ h (p - h) in
    let m₄ = store32 m₃ (h + 4) (p + r) in
    (
      record { high_mem = h; bytes = m₄ },
      rw (new, at, taken, b.last, old, b.size, left),
      record {
        high_mem = refl;
        front_size =
            load32-store32_ne m₃ (h + 4) (p + r) h (inl (omega arith))
            ∙ load32-store32_self m₂ h (p - h) (omega (arith, b.limit_in));
        front_next = load32-store32_self m₃ (h + 4) (p + r) (omega (arith, b.limit_in));
        back_size =
            load32-store32_ne m₃ (h + 4) (p + r) (p + r) (inr (omega arith))
            ∙ load32-store32_ne m₂ h (p - h) (p + r) (inr (omega arith))
            ∙ load32-store32_self m₁ (p + r) (limit - (p + r)) (omega (arith, b.limit_in));
        back_next =
            load32-store32_ne m₃ (h + 4) (p + r) (p + r + 4) (inr (omega arith))
            ∙ load32-store32_ne m₂ h (p - h) (p + r + 4) (inr (omega arith))
            ∙ load32-store32_ne m₁ (p + r) (limit - (p + r)) (p + r + 4) (inr (omega arith))
            ∙ load32-store32_self s.bytes (p + r + 4) 0 (omega arith);
      },
    )

-- The first multiple of `2 ^ k` from the start of the free block on.
abbrev pub first_multiple : ℕ → Store → ℕ
first_multiple k s = (s.high_mem + (2 ^ k - 1)) / 2 ^ k * 2 ^ k

-- With one free block, a size of at most 2 ^ 32 - 16 and an alignment to a power of two up to 2 ^
-- 15 that does not wrap and loses 16 bytes or more: if the aligned request ends before the block
-- does, `alloc` returns the block's first aligned address, and the parts in front of the request
-- and behind it are the free blocks.
pub alloc-IsSplit :
    (limit k size : ℕ) (s : Store)
    → IsBump limit s
    → k < 16
    → size + 16 ≤ 2 ^ 32
    → s.high_mem + 2 ^ k ≤ 2 ^ 32
    → s.high_mem + 16 ≤ first_multiple k s
    → first_multiple k s + units size < limit
    → (s' : Store) × (alloc size (2 ^ k) s ≡ returns (first_multiple k s) s')
      × IsSplit limit (first_multiple k s) (units size) s s'
unfolding alloc
alloc-IsSplit limit k size s b hk hs small behind room =
    let p = first_multiple k s in
    let r = units size in
    let up = round_up_pow k s.high_mem hk small in
    let lost : lost_at (2 ^ k) s.high_mem ≡ p - s.high_mem =
      unfold lost_at in rw up (omega (arith, b.limit_in)) in
    let fit : fits r (2 ^ k) s.high_mem s.bytes ≡ true =
      unfold fits in rw (lost, b.size) (ground (arith, b.limit_in)) in
    let (s', e, parts) = split-IsSplit limit p r s b behind room in
    let cut : carve s s.high_mem (p - s.high_mem) r ≡ split s s.high_mem (p - s.high_mem) r =
      unfold carve in ground arith in
    (
      s',
      rw (round_up_16 size hs) (
          walk_here (suc max_blocks) r (2 ^ k) s.high_mem s (omega arith) (omega (arith, b.start))
            fit
          ∙ ap (λ l. carve s s.high_mem l r) lost
          ∙ cut
          ∙ e),
      parts,
    )

split_somewhere :
    (s : Store) (mem lost size : ℕ)
    → 16 ≤ lost
    → (s' : Store) × (carve s mem lost size ≡ returns (u32 (mem + lost)) s')
unfolding carve
split_somewhere s mem lost size h =
    let test : leb 16 lost ≡ true = ground arith in (store_of (split s mem lost size), rw test)
  where
    store_of : Result → Store
    store_of (returns p s') = s'
    store_of out_of_fuel = s

-- With one free block that is large enough for the request but ends before its first aligned
-- address, for an alignment to a power of two up to 2 ^ 15 that does not wrap, `alloc` returns that
-- address, which lies behind the block.
pub alloc_overrun :
    (limit k size : ℕ) (s : Store)
    → IsBump limit s
    → k < 16
    → size + 16 ≤ 2 ^ 32
    → s.high_mem + 2 ^ k ≤ 2 ^ 32
    → s.high_mem + units size ≤ limit
    → limit < first_multiple k s
    → first_multiple k s < 2 ^ 32
    → (s' : Store) × (alloc size (2 ^ k) s ≡ returns (first_multiple k s) s')
unfolding alloc
alloc_overrun limit k size s b hk hs small holds past word =
    let p = first_multiple k s in
    let r = units size in
    let up = round_up_pow k s.high_mem hk small in
    let lost : lost_at (2 ^ k) s.high_mem ≡ p - s.high_mem =
      unfold lost_at in rw up (omega (arith, b.limit_in, b.below)) in
    let fit : fits r (2 ^ k) s.high_mem s.bytes ≡ true =
      unfold fits in rw (lost, b.size) (ground (arith, b.limit_in, b.below)) in
    let at : u32 (s.high_mem + (p - s.high_mem)) ≡ p = omega (arith, b.below) in
    let enough : 16 ≤ p - s.high_mem = omega (arith, b.below, b.aligned, b.limit_aligned) in
    let (s', e) = split_somewhere s s.high_mem (p - s.high_mem) r enough in
    (
      s',
      rw (round_up_16 size hs) (
          walk_here (suc max_blocks) r (2 ^ k) s.high_mem s (omega arith) (omega (arith, b.start))
            fit
          ∙ ap (λ l. carve s s.high_mem l r) lost
          ∙ e
          ∙ ap (λ q. returns q s') at),
    )

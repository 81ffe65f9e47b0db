-- ===== src/Alloc/Bump.antt =====
-- The allocator with one free block, as the kernel runs it: with alignments up to 16 it gives out
-- consecutive blocks, from the end of the kernel upwards.
use frog_os.Base.{ℕ, zero, suc, ◌+◌, ◌-◌, ◌*◌, ◌/◌, ◌%◌, ◌^◌, ◌≤◌, ◌<◌, ◌≡◌, ◌≢◌, ◌⊎◌, refl, arith}
use frog_os.Base.{Bool, true, false, inl, inr, ◌==◌, ltb, leb}
use frog_os.Base.{
  bit_and, bit_and_clear, u32, sub32, not32, low_mask, all_below, at_all_below, ◌&&◌, ◌∙◌, ap,
}
use native.Mathlib.Decide.{dec_lt}
use native.Mathlib.Nat.{one-le-pow}
use mathlib.Core.Path.{subst}
use frog_os.Memory.{Mem, store32}
use frog_os.Memory.Laws.{
  load32-same, load32-store32_self, load32-store32_ne, store32-outside, IsBytes,
}
use frog_os.Memory.Laws.{store32-IsBytes}
use frog_os.Base.{sym}
use frog_os.Alloc.{Store, Result, returns, out_of_fuel, round_up, size_of, next_of}
use frog_os.Alloc.{carve, walk, fits, lost_at, max_blocks, alloc}

-- One free block of whole units of 16 bytes, that ends at `limit`.
pub record IsBump (limit : ℕ) (s : Store) : Type 0 where
  pub start : 0 < s.high_mem
  pub aligned : s.high_mem % 16 ≡ 0
  pub below : s.high_mem < limit
  pub limit_aligned : limit % 16 ≡ 0
  pub limit_in : limit < 2 ^ 32
  pub size : size_of s.bytes s.high_mem ≡ limit - s.high_mem
  pub last : next_of s.bytes s.high_mem ≡ 0

-- Writes in front of the free block leave it alone.
pub IsBump-kept :
    (limit : ℕ) (s s' : Store)
    → s'.high_mem ≡ s.high_mem
    → ((x : ℕ) → s.high_mem ≤ x → s'.bytes x ≡ s.bytes x)
    → IsBump limit s
    → IsBump limit s'
IsBump-kept limit s s' e same b = record {
  start = rw e b.start;
  aligned = rw e b.aligned;
  below = rw e b.below;
  limit_aligned = b.limit_aligned;
  limit_in = b.limit_in;
  size = rw (e, load32-same s.high_mem s.bytes s'.bytes (λ x lo hi. same x lo)) b.size;
  last =
      rw (e, load32-same (s.high_mem + 4) s.bytes s'.bytes (λ x lo hi. same x (omega arith)))
        b.last;
}

-- Powers of two below 2 ^ 16, by evaluation.
abbrev good_power : ℕ → Bool
good_power k =
    leb (2 ^ k) (2 ^ 15)
    && (not32 (2 ^ k - 1) == low_mask (32 - k) * 2 ^ k)
    && (2 ^ (32 - k) * 2 ^ k == 2 ^ 32)

good_powers : all_below 16 good_power ≡ true
unfolding all_below
good_powers = refl

-- `round_up` to a power of two is the next multiple, where the sum does not wrap.
pub round_up_pow :
    (k addr : ℕ)
    → k < 16
    → addr + 2 ^ k ≤ 2 ^ 32
    → round_up addr (2 ^ k) ≡ (addr + (2 ^ k - 1)) / 2 ^ k * 2 ^ k
unfolding round_up
round_up_pow k addr hk h = finish (at_all_below 16 good_power k good_powers hk)
  where
    finish :
        good_power k ≡ true
        → bit_and (u32 (addr + sub32 (2 ^ k) 1)) (not32 (sub32 (2 ^ k) 1))
          ≡ (addr + (2 ^ k - 1)) / 2 ^ k * 2 ^ k
    finish g =
        let pos : 1 ≤ 2 ^ k = omega (arith, one-le-pow k 2) in
        let small : 2 ^ k ≤ 2 ^ 15 = ground arith in
        let mask : not32 (2 ^ k - 1) ≡ low_mask (32 - k) * 2 ^ k = ground arith in
        let whole : 2 ^ (32 - k) * 2 ^ k ≡ 2 ^ 32 = ground arith in
        let less : sub32 (2 ^ k) 1 ≡ 2 ^ k - 1 = omega arith in
        let sum : u32 (addr + (2 ^ k - 1)) ≡ addr + (2 ^ k - 1) = omega arith in
        rw (less, sum, mask) (bit_and_clear k (32 - k) (addr + (2 ^ k - 1)) (omega arith))

pub round_up_16 : (n : ℕ) → n + 16 ≤ 2 ^ 32 → round_up n 16 ≡ (n + 15) / 16 * 16
round_up_16 n h = round_up_pow 4 n (omega arith) h

-- At a multiple of 16, no byte is lost to an alignment of 1, 2, 4, 8 or 16.
pub lost_zero : (k p : ℕ) → k ≤ 4 → p % 16 ≡ 0 → p + 16 ≤ 2 ^ 32 → lost_at (2 ^ k) p ≡ 0
unfolding lost_at
lost_zero zero p hk e h = rw (round_up_pow 0 p (omega arith) (omega arith)) (omega arith)
lost_zero (suc zero) p hk e h = rw (round_up_pow 1 p (omega arith) (omega arith)) (omega arith)
lost_zero (suc (suc zero)) p hk e h =
    rw (round_up_pow 2 p (omega arith) (omega arith)) (omega arith)
lost_zero (suc (suc (suc zero))) p hk e h =
    rw (round_up_pow 3 p (omega arith) (omega arith)) (omega arith)
lost_zero (suc (suc (suc (suc zero)))) p hk e h =
    rw (round_up_pow 4 p (omega arith) (omega arith)) (omega arith)
lost_zero (suc (suc (suc (suc (suc k))))) p hk e h = absurd (omega arith)

-- The size that a request comes to.
abbrev pub units : ℕ → ℕ
units size = (size + 15) / 16 * 16

pub max_blocks-pos : max_blocks ≢ 0
unfolding max_blocks
max_blocks-pos = omega arith

walk-null : (f size align : ℕ) (s : Store) → f ≢ 0 → walk f size align 0 s ≡ returns 0 s
unfolding walk
walk-null zero size align s h = absurd (h refl)
walk-null (suc f) size align s h = refl

module _ (limit : ℕ) (s : Store) (b : IsBump limit s) where
  fits_iff : (r k : ℕ) → k ≤ 4 → fits r (2 ^ k) s.high_mem s.bytes ≡ ltb r (limit - s.high_mem)
  unfolding fits
  fits_iff r k hk =
      let lost = lost_zero k s.high_mem hk b.aligned (omega (arith, b.below, b.limit_aligned)) in
      rw (lost, b.size) (ground arith)

  -- The store after the front of its block is given out.
  unfoldable bumped : ℕ → Store
  bumped r = record {
    high_mem = u32 (s.high_mem + r);
    bytes =
        let new = u32 (s.high_mem + r) in
        let m = store32 s.bytes (new + 4) (next_of s.bytes s.high_mem) in
        store32 m new (sub32 (size_of m s.high_mem) r);
  }

  walk_fits :
      (r k f : ℕ)
      → k ≤ 4
      → s.high_mem + r < limit
      → walk (suc f) r (2 ^ k) s.high_mem s ≡ returns s.high_mem (bumped r)
  unfolding walk carve bumped
  walk_fits r k f hk room =
      let lost = lost_zero k s.high_mem hk b.aligned (omega (arith, b.below, b.limit_aligned)) in
      let test : fits r (2 ^ k) s.high_mem s.bytes ≡ true = rw (fits_iff r k hk) (ground arith) in
      let on : (s.high_mem == 0) ≡ false = ground (arith, b.start) in rw (on, test, lost)

  walk_full :
      (r k f : ℕ)
      → k ≤ 4
      → f ≢ 0
      → limit ≤ s.high_mem + r
      → walk (suc f) r (2 ^ k) s.high_mem s ≡ returns 0 s
  unfolding walk
  walk_full r k f hk hf full =
      let test : fits r (2 ^ k) s.high_mem s.bytes ≡ false = rw (fits_iff r k hk) (ground arith) in
      let on : (s.high_mem == 0) ≡ false = ground (arith, b.start) in
      rw (on, test, b.last) (walk-null f r (2 ^ k) s hf)

  -- The two header writes, with their addresses and values as numbers.
  bumped_eq :
      (r : ℕ)
      → s.high_mem + r < limit
      → bumped r ≡ record {
        high_mem = s.high_mem + r;
        bytes =
            store32
              (store32 s.bytes (s.high_mem + r + 4) 0)
              (s.high_mem + r)
              (limit - s.high_mem - r);
      }
  unfolding bumped
  bumped_eq r room =
      let new : u32 (s.high_mem + r) ≡ s.high_mem + r = omega (arith, b.limit_in) in
      let old = load32-store32_ne s.bytes (s.high_mem + r + 4) 0 s.high_mem (inl (omega arith)) in
      let left : sub32 (limit - s.high_mem) r ≡ limit - s.high_mem - r =
        omega (arith, b.limit_in) in
      rw (new, b.last, old, b.size, left)

  bumped-IsBump : (r : ℕ) → r % 16 ≡ 0 → s.high_mem + r < limit → IsBump limit (bumped r)
  bumped-IsBump r hr room = rw (bumped_eq r room) (record {
    start = omega (arith, b.start);
    aligned = omega (arith, b.aligned);
    below = room;
    limit_aligned = b.limit_aligned;
    limit_in = b.limit_in;
    size =
        load32-store32_self _ (s.high_mem + r) (limit - s.high_mem - r) (omega (arith, b.limit_in))
        ∙ omega arith;
    last =
        load32-store32_ne _ (s.high_mem + r) (limit - s.high_mem - r) (s.high_mem + r + 4)
          (inr (omega arith))
        ∙ load32-store32_self s.bytes (s.high_mem + r + 4) 0 (omega arith);
  })

  bumped-bytes :
      (r x : ℕ)
      → s.high_mem + r < limit
      → ((bumped r).bytes x ≡ s.bytes x)
        ⊎ (((bumped r).high_mem ≤ x) × (x < (bumped r).high_mem + 8))
  bumped-bytes r x room = rw (bumped_eq r room) (elim (dec_lt x (s.high_mem + r)) [
    | yes low ↦ inl (kept (inl low))
    | no high ↦ elim (dec_lt x (s.high_mem + r + 8)) [
      | yes inside ↦ inr (omega arith)
      | no behind ↦ inl (kept (inr (omega arith)))
    ]
  ])
    where
      kept :
          (x < s.high_mem + r) ⊎ (s.high_mem + r + 8 ≤ x)
          → store32
              (store32 s.bytes (s.high_mem + r + 4) 0)
              (s.high_mem + r)
              (limit - s.high_mem - r)
              x
            ≡ s.bytes x
      kept out =
          store32-outside _ (s.high_mem + r) (limit - s.high_mem - r) x (ground arith)
          ∙ store32-outside s.bytes (s.high_mem + r + 4) 0 x (ground arith)

  -- Room for a request: its block is the front of the free one, the free block starts behind it
  -- and still ends at the limit, and no byte changes but the eight of the new header.
  abbrev pub Given : ℕ → Result → Type 0
  Given size o =
      (s' : Store) × (o ≡ returns s.high_mem s')
      × (s'.high_mem ≡ s.high_mem + units size)
      × IsBump limit s'
      × ((x : ℕ) → (s'.bytes x ≡ s.bytes x) ⊎ ((s'.high_mem ≤ x) × (x < s'.high_mem + 8)))

  given :
      (size k : ℕ)
      → k ≤ 4
      → size + 16 ≤ 2 ^ 32
      → s.high_mem + units size < limit
      → Given size (alloc size (2 ^ k) s)
  unfolding alloc
  given size k hk hs room =
      let moved = ap (λ t. t.high_mem) (bumped_eq (units size) room) in
      (
        bumped (units size),
        rw (round_up_16 size hs) (walk_fits (units size) k max_blocks hk room),
        moved,
        bumped-IsBump (units size) (omega arith) room,
        λ x. bumped-bytes (units size) x room,
      )

  -- With one free block, a size of at most 2 ^ 32 - 16 and an alignment of 1, 2, 4, 8 or 16,
  -- `alloc` ends. If the request, rounded up to 16 bytes, is smaller than the block, it gets the
  -- front of the block, and the rest stays the one free block, up to the same limit; no byte
  -- changes but the new header's. If not, it gets 0 and nothing changes.
  pub alloc_bump :
      (size k : ℕ)
      → k ≤ 4
      → size + 16 ≤ 2 ^ 32
      → ((s.high_mem + units size < limit) × Given size (alloc size (2 ^ k) s))
        ⊎ ((limit ≤ s.high_mem + units size) × (alloc size (2 ^ k) s ≡ returns 0 s))
  unfolding alloc
  alloc_bump size k hk hs = elim (dec_lt (s.high_mem + units size) limit) [
    | yes room ↦ inl (room, given size k hk hs room)
    | no full ↦ inr (
      omega arith,
      rw (round_up_16 size hs)
          (walk_full (units size) k max_blocks hk max_blocks-pos (omega arith)),
    )
  ]

-- The memory of what `alloc` returns.
bytes_of : Result → Mem → Mem
bytes_of (returns p s) m = s.bytes
bytes_of out_of_fuel m = m

module _ (limit : ℕ) (s : Store) (b : IsBump limit s) where
  -- An allocation that finds room keeps the memory one of bytes.
  pub alloc_bump-IsBytes :
      (size k : ℕ) (s' : Store)
      → k ≤ 4
      → size + 16 ≤ 2 ^ 32
      → s.high_mem + units size < limit
      → alloc size (2 ^ k) s ≡ returns s.high_mem s'
      → IsBytes s.bytes
      → IsBytes s'.bytes
  unfolding alloc bumped bytes_of store32
  alloc_bump-IsBytes size k s' hk hs room e bytes =
      let e' : alloc size (2 ^ k) s ≡ returns s.high_mem (bumped limit s b (units size)) =
        rw (round_up_16 size hs) (walk_fits limit s b (units size) k max_blocks hk room) in
      let same = ap (λ (r : Result). bytes_of r s.bytes) (sym e' ∙ e) in
      subst IsBytes same (store32-IsBytes _ _ _ (store32-IsBytes s.bytes _ _ bytes))

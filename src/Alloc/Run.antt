-- ===== src/Alloc/Run.antt =====
-- A sequence of allocations from the start of the kernel: the blocks lie apart.
use frog_os.Base.{ℕ, ◌+◌, ◌-◌, ◌/◌, ◌*◌, ◌^◌, ◌≤◌, ◌<◌, ◌≡◌, ◌⊎◌, refl, arith, inl, inr, ◌∙◌}
use frog_os.Base.{List, [], ◌∷◌, Option, none, some, sub32}
use native.Mathlib.Nat.{le_refl}
use frog_os.Memory.{Mem}
use frog_os.Memory.Laws.{load32-store32_self, load32-store32_ne}
use frog_os.Alloc.{Store, Result, returns, out_of_fuel, init_mem, alloc, round_up}
use frog_os.Alloc.Bump.{IsBump, units, alloc_bump, round_up_16}

-- For a kernel that ends above 0 and 16 bytes or more below 0xC0C00000, `init_mem` makes one block
-- from the end of the kernel, rounded up, to 0xC0C00000.
pub init_mem-IsBump :
    (kernel_end : ℕ) (m : Mem)
    → 0 < kernel_end
    → kernel_end + 16 ≤ 0xc0c00000
    → IsBump 0xc0c00000 (init_mem kernel_end m) × (kernel_end ≤ (init_mem kernel_end m).high_mem)
unfolding init_mem
init_mem-IsBump kernel_end m pos h =
    let high = (kernel_end + 15) / 16 * 16 in
    let start : round_up kernel_end 16 ≡ high = round_up_16 kernel_end (omega arith) in
    let size : sub32 0xc0c00000 high ≡ 0xc0c00000 - high = omega arith in
    rw (start, size)
      (
        record {
          start = omega arith;
          aligned = omega arith;
          below = omega arith;
          limit_aligned = omega arith;
          limit_in = omega arith;
          size =
              load32-store32_ne _ (high + 4) 0 high (inl (omega arith))
              ∙ load32-store32_self m high (0xc0c00000 - high) (omega arith);
          last = load32-store32_self _ (high + 4) 0 (omega arith);
        },
        omega arith,
      )

-- A request is a size and the power of two that it is aligned to.
abbrev pub Request : Type 0
Request = ℕ × ℕ

abbrev pub IsRequest : Request → Type 0
IsRequest (size, k) = (size + 16 ≤ 2 ^ 32) × (k ≤ 4)

abbrev pub AllRequests : List Request → Type 0
AllRequests [] = Unit
AllRequests (r ∷ rs) = IsRequest r × AllRequests rs

abbrev and_then :
    Result → (ℕ → Store → Option (List (ℕ × ℕ) × Store)) → Option (List (ℕ × ℕ) × Store)
and_then (returns p s) f = f p s
and_then out_of_fuel f = none

abbrev add_block : ℕ × ℕ → Option (List (ℕ × ℕ) × Store) → Option (List (ℕ × ℕ) × Store)
add_block b none = none
add_block b (some (bs, s)) = some (b ∷ bs, s)

-- The pointers and sizes of a sequence of allocations.
pub alloc_all : List Request → Store → Option (List (ℕ × ℕ) × Store)
alloc_all [] s = some ([], s)
alloc_all ((size, k) ∷ rs) s =
    and_then (alloc size (2 ^ k) s) (λ p s'. add_block (p, size) (alloc_all rs s'))

-- From `low` up to `limit`, each block that is no null pointer lies behind those before it.
abbrev pub AreApart : ℕ → ℕ → List (ℕ × ℕ) → Type 0
AreApart limit low [] = Unit
AreApart limit low ((p, n) ∷ bs) =
    ((p ≡ 0) × AreApart limit low bs) ⊎ ((low ≤ p) × (p + n < limit) × AreApart limit (p + n) bs)

AreApart-mono :
    (limit low low' : ℕ) (bs : List (ℕ × ℕ))
    → low' ≤ low
    → AreApart limit low bs
    → AreApart limit low' bs
AreApart-mono limit low low' [] h a = a
AreApart-mono limit low low' ((p, n) ∷ bs) h (inl (e, a)) =
    inl (e, AreApart-mono limit low low' bs h a)
AreApart-mono limit low low' ((p, n) ∷ bs) h (inr (l, r, a)) = inr (omega arith, r, a)

-- The allocations end, their blocks are apart, the one free block still ends at `limit`, and the
-- bytes in front of the first one are as they were.
abbrev pub AllocatesApart : ℕ → Store → List Request → Type 0
AllocatesApart limit s rs =
    (bs : List (ℕ × ℕ)) × (s' : Store) × (alloc_all rs s ≡ some (bs, s'))
    × AreApart limit s.high_mem bs
    × IsBump limit s'
    × ((x : ℕ) → (s'.bytes x ≡ s.bytes x) ⊎ (s.high_mem ≤ x))

refused :
    (limit : ℕ) (s : Store) (size k : ℕ) (rs : List Request)
    → alloc size (2 ^ k) s ≡ returns 0 s
    → AllocatesApart limit s rs
    → AllocatesApart limit s ((size, k) ∷ rs)
unfolding alloc_all
refused limit s size k rs e (bs, s', run, apart, b, same) =
    ((0, size) ∷ bs, s', rw (e, run) refl, inl (refl, apart), b, same)

served :
    (limit : ℕ) (s s' : Store) (size k : ℕ) (rs : List Request)
    → alloc size (2 ^ k) s ≡ returns s.high_mem s'
    → s'.high_mem ≡ s.high_mem + units size
    → s'.high_mem < limit
    → ((x : ℕ) → (s'.bytes x ≡ s.bytes x) ⊎ ((s'.high_mem ≤ x) × (x < s'.high_mem + 8)))
    → AllocatesApart limit s' rs
    → AllocatesApart limit s ((size, k) ∷ rs)
unfolding alloc_all
served limit s s' size k rs e next room here (bs, s'', run, apart, b, same) = (
  (s.high_mem, size) ∷ bs,
  s'',
  rw (e, run) refl,
  inr (le_refl s.high_mem, omega arith, AreApart-mono limit s'.high_mem _ bs (omega arith) apart),
  b,
  λ x. elim (same x) [
    | inr high ↦ inr (omega arith)
    | inl e ↦ elim (here x) [ inl e' ↦ inl (e ∙ e') | inr (high, _) ↦ inr (omega arith) ]
  ],
)

-- Any sequence of allocations of at most 2 ^ 32 - 16 bytes, with alignments 1, 2, 4, 8 and 16, from
-- one free block, ends. Its blocks are null or lie one behind the other within the free block, the
-- rest of which stays the one free block; the bytes in front of the free block are as they were.
pub alloc_all-AreApart :
    (limit : ℕ) (rs : List Request) (s : Store)
    → IsBump limit s
    → AllRequests rs
    → AllocatesApart limit s rs
unfolding alloc_all
alloc_all-AreApart limit [] s b ok = ([], s, refl, tt, b, λ x. inl refl)
alloc_all-AreApart limit ((size, k) ∷ rs) s b ((small, hk), ok) =
    elim (alloc_bump limit s b size k hk small) [
      | inl (room, (s', e, next, b', same)) ↦
          served limit s s' size k rs e next b'.below same (alloc_all-AreApart limit rs s' b' ok)
      | inr (full, e) ↦ refused limit s size k rs e (alloc_all-AreApart limit rs s b ok)
    ]

-- ===== src/Alloc.antt =====
-- memory.c: the kernel's allocator, a list of free blocks whose headers lie in the blocks.
-- A `memhdr` at address `p` is the size at `p` and the next block's address at `p + 4`.
pub mod Aligned
pub mod Bump
pub mod Run
pub mod Print
mod Tests
use frog_os.Base.{ℕ, zero, suc, ◌+◌, ◌^◌, bit_and, u32, sub32, not32, ltb, leb, ◌==◌}
use frog_os.Base.{if◌then◌else◌, Bool, ◌&&◌}
use frog_os.Memory.{Mem, load32, store32}

-- The variable `high_mem` and the memory.
pub record Store : Type 0 where
  pub high_mem : ℕ
  pub bytes : Mem

-- `alloc` returns a pointer, 0 for none; `out_of_fuel` is a walk that has not ended.
pub data Result : Type 0 where
  returns : ℕ → Store → Result
  out_of_fuel : Result

-- `(addr+(size-1))&~(size-1)`, where `size-1` is an `int`.
unfoldable pub round_up : ℕ → ℕ → ℕ
round_up addr size = bit_and (u32 (addr + sub32 size 1)) (not32 (sub32 size 1))

abbrev pub size_of : Mem → ℕ → ℕ
size_of m p = load32 m p

abbrev pub next_of : Mem → ℕ → ℕ
next_of m p = load32 m (p + 4)

-- `kernel_end` is the address at which the linker puts it.
unfoldable pub init_mem : ℕ → Mem → Store
init_mem kernel_end m =
    let high = round_up kernel_end 16 in
    record {
      high_mem = high;
      bytes = store32 (store32 m high (sub32 0xc0c00000 high)) (high + 4) 0;
    }

-- `lost >= 16`: the part in front stays a free block, and what is behind becomes one.
unfoldable pub split : Store → ℕ → ℕ → ℕ → Result
split s mem lost size =
    let new_mem = u32 (mem + lost + size) in
    let m₁ = store32 s.bytes (new_mem + 4) (next_of s.bytes mem) in
    let m₂ = store32 m₁ new_mem (sub32 (size_of m₁ mem) (u32 (lost + size))) in
    let m₃ = store32 m₂ mem lost in
    let m₄ = store32 m₃ (mem + 4) new_mem in
    returns (u32 (mem + lost)) (record { high_mem = s.high_mem; bytes = m₄ })

-- `lost < 16`: the block's front is given out, and `high_mem` moves behind it.
unfoldable pub bump : Store → ℕ → ℕ → Result
bump s mem size =
    let new_mem = u32 (mem + size) in
    let m₁ = store32 s.bytes (new_mem + 4) (next_of s.bytes mem) in
    let m₂ = store32 m₁ new_mem (sub32 (size_of m₁ mem) size) in
    returns s.high_mem (record { high_mem = new_mem; bytes = m₂ })

-- The bytes before the first address of the block with the alignment.
unfoldable pub lost_at : ℕ → ℕ → ℕ
unfolding round_up
lost_at align mem = sub32 (round_up mem align) mem

-- The two conditions on a block: its size, and its size without the lost bytes.
unfoldable pub fits : ℕ → ℕ → ℕ → Mem → Bool
unfolding lost_at
fits size align mem m =
    leb size (size_of m mem) && ltb size (sub32 (size_of m mem) (lost_at align mem))

unfoldable pub carve : Store → ℕ → ℕ → ℕ → Result
unfolding split bump
carve s mem lost size = if leb 16 lost then split s mem lost size else bump s mem size

-- The loop of `alloc` at the block `mem`, `size` rounded up.
unfoldable pub walk : ℕ → ℕ → ℕ → ℕ → Store → Result
walk zero size align mem s = out_of_fuel
walk (suc fuel) size align mem s =
    let rest = walk fuel size align (next_of s.bytes mem) s in
    if mem == 0
    then returns 0 s
    else (if fits size align mem s.bytes then carve s mem (lost_at align mem) size else rest)

-- Blocks of 16 bytes or more do not number more than this in 32 bits of address.
unfoldable pub max_blocks : ℕ
max_blocks = 2 ^ 28

unfoldable pub alloc : ℕ → ℕ → Store → Result
alloc size align s = walk (suc max_blocks) (round_up size 16) align s.high_mem s

-- ===== src/Info.antt =====
-- print_info.c: the walk over the tags of the boot information at `mi`, as what it prints, in order.
pub mod Tags
mod Tests
use frog_os.Base.{ℕ, zero, suc, ◌+◌, ◌*◌, ◌^◌, bit_and, not32, u32, ◌==◌, ltb, if◌then◌else◌}
use frog_os.Base.{List, [], ◌∷◌, ◌++◌, Option, none, some}
use frog_os.Memory.{Mem, load32}

-- The addresses of the kernel's start and end, the address of the boot information, a tag with its
-- offset, kind and size, and a range of memory with its kind.
pub data Line : Type 0 where
  kernel : ℕ → ℕ → Line
  address : ℕ → Line
  tag : ℕ → ℕ → ℕ → Line
  range : ℕ → ℕ → ℕ → Line

abbrev pub load64 : Mem → ℕ → ℕ
load64 m a = load32 m a + 2 ^ 32 * load32 m (a + 4)

-- The inner loop, at the offset `i` of the memory map at `at`; `none` is a loop that has not ended.
unfoldable pub print_ranges : ℕ → ℕ → ℕ → Mem → Option (List Line)
print_ranges zero at i m = none
print_ranges (suc n) at i m =
    let line = range (load64 m (at + i)) (load64 m (at + i + 8)) (load32 m (at + i + 16)) in
    let rest = print_ranges n at (u32 (i + load32 m (at + 8))) m in
    if ltb i (load32 m (at + 4))
    then elim rest [ none ↦ none | some lines ↦ some (line ∷ lines) ]
    else some []

-- The ranges of a tag, which only a memory map has.
unfoldable pub tag_ranges : ℕ → Mem → Option (List Line)
unfolding print_ranges
tag_ranges at m =
    if load32 m at == 6 then print_ranges (suc (load32 m (at + 4))) at 16 m else some []

-- The outer loop at the offset `idx`.
unfoldable pub print_tags : ℕ → ℕ → ℕ → ℕ → Mem → Option (List Line)
print_tags zero mi idx size m = none
print_tags (suc n) mi idx size m =
    let tag_type = load32 m (mi + idx) in
    let tag_size = load32 m (mi + idx + 4) in
    let rest = print_tags n mi (u32 (idx + bit_and (u32 (tag_size + 7)) (not32 7))) size m in
    if ltb idx size
    then elim (tag_ranges (mi + idx) m) [
      | none ↦ none
      | some lines ↦ elim rest [
        | none ↦ none
        | some more ↦ some (tag idx tag_type tag_size ∷ lines ++ more)
      ]
    ]
    else some []

-- Each round of a loop advances by a byte at least where it ends, so the sizes are enough rounds. The
-- linker chooses `kernel_start`, `kernel_end` and `mi`.
unfoldable pub print_info : ℕ → ℕ → ℕ → Mem → Option (List Line)
unfolding print_tags tag_ranges
print_info kernel_start kernel_end mi m =
    let size = load32 m mi in
    elim (print_tags (suc size) mi 8 size m) [
      | none ↦ none
      | some lines ↦ some (kernel kernel_start kernel_end ∷ address mi ∷ lines)
    ]

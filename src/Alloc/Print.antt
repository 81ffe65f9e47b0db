-- ===== src/Alloc/Print.antt =====
-- memory.c: print_mem, as the lines that it prints.
use frog_os.Base.{ℕ, zero, suc, ◌+◌, ◌^◌, ◌≤◌, ◌<◌, ◌≡◌, refl, ◌∙◌, ap, arith, u32, ◌==◌}
use frog_os.Base.{List, [], ◌∷◌, length, Option, none, some, if◌then◌else◌, true, false}
use frog_os.Memory.{Mem}
use frog_os.Alloc.{Store, size_of, next_of, max_blocks}

-- A block's address, its size and the next one.
abbrev pub Line : Type 0
Line = ℕ × ℕ × ℕ

abbrev line : Mem → ℕ → Line
line m p = (p, size_of m p, next_of m p)

abbrev add_line : Line → Option (List Line × ℕ) → Option (List Line × ℕ)
add_line l none = none
add_line l (some (ls, t)) = some (l ∷ ls, t)

-- The loop at the block `mem` with the sum of the sizes so far; `none` is a loop that has not ended.
unfoldable pub print_from : ℕ → ℕ → ℕ → Mem → Option (List Line × ℕ)
print_from zero mem total m = none
print_from (suc fuel) mem total m =
    let rest = print_from fuel (next_of m mem) (u32 (total + size_of m mem)) m in
    if mem == 0 then some ([], total) else add_line (line m mem) rest

unfoldable pub print_mem : Store → Option (List Line × ℕ)
unfolding print_from
print_mem s = print_from (suc max_blocks) s.high_mem 0 s.bytes

-- From `p` the links lead through the blocks to the null pointer.
abbrev pub FreeList : Mem → ℕ → List ℕ → Type 0
FreeList m p [] = p ≡ 0
FreeList m p (a ∷ bs) = (p ≡ a) × (0 < a) × FreeList m (next_of m a) bs

abbrev pub lines : Mem → List ℕ → List Line
lines m [] = []
lines m (a ∷ bs) = line m a ∷ lines m bs

abbrev pub sizes : Mem → List ℕ → ℕ
sizes m [] = 0
sizes m (a ∷ bs) = size_of m a + sizes m bs

print_from-FreeList :
    (fuel p total : ℕ) (m : Mem) (bs : List ℕ)
    → length bs < fuel
    → total < 2 ^ 32
    → FreeList m p bs
    → print_from fuel p total m ≡ some (lines m bs, u32 (total + sizes m bs))
unfolding print_from
print_from-FreeList zero p total m bs h small list = absurd (omega arith)
print_from-FreeList (suc fuel) p total m [] h small list =
    let on : (p == 0) ≡ true = ground arith in
    let sum : u32 (total + 0) ≡ total = omega arith in rw (on, sum) refl
print_from-FreeList (suc fuel) p total m (a ∷ bs) h small (e, pos, list) =
    let on : (a == 0) ≡ false = ground arith in
    let rest =
      print_from-FreeList fuel (next_of m a) (u32 (total + size_of m a)) m bs (omega arith)
        (omega arith) list in
    let sum : u32 (u32 (total + size_of m a) + sizes m bs)
        ≡ u32 (total + (size_of m a + sizes m bs)) =
      omega arith in
    rw (e, on, rest, sum) refl

-- On a list of free blocks that is not longer than what 32 bits of address hold, `print_mem` ends; it
-- shows the address, the size and the next block of each of them in the list's order, and the sum of
-- their sizes, modulo 2 ^ 32.
pub print_mem-FreeList :
    (s : Store) (bs : List ℕ)
    → length bs ≤ max_blocks
    → FreeList s.bytes s.high_mem bs
    → print_mem s ≡ some (lines s.bytes bs, u32 (sizes s.bytes bs))
unfolding print_mem
print_mem-FreeList s bs h list =
    let sum : u32 (0 + sizes s.bytes bs) ≡ u32 (sizes s.bytes bs) = omega arith in
    print_from-FreeList (suc max_blocks) s.high_mem 0 s.bytes bs (omega arith) (omega arith) list
    ∙ ap (λ (t : ℕ). some (lines s.bytes bs, t)) sum

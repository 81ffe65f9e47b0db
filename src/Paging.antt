-- ===== src/Paging.antt =====
-- paging.c: the physical address of a virtual one, by the page tables that the last entry of the
-- page directory maps at 0xFFC00000. `m` is the memory at its virtual addresses.
use frog_os.Base.{ℕ, ◌+◌, ◌*◌, bit_and, u32, not32, ◌==◌, ◌>>>◌, if◌then◌else◌}
use frog_os.Memory.{Mem, load32}

unfoldable pub get_physaddr : Mem → ℕ → ℕ
get_physaddr m vaddr =
    let pdidx = vaddr >>> 22 in
    let ptidx = bit_and (vaddr >>> 12) 0x3ff in
    let pde = load32 m (0xfffff000 + 4 * pdidx) in
    let pte = load32 m (u32 (0xffc00000 + 4 * (0x400 * pdidx) + 4 * ptidx)) in
    if bit_and pde 1 == 0
    then 0
    else if bit_and pte 1 == 0
    then 0
    else u32 (bit_and pte (not32 0xfff) + bit_and vaddr 0xfff)

-- ===== src/Info/Tests.antt =====
-- The walk at concrete boot information.
use frog_os.Base.{◌≡◌, refl, arith, List, [], ◌∷◌, some}
use frog_os.Memory.{Mem, load32, store32}
use frog_os.Info.{Line, kernel, address, print_info}
use frog_os.Info.Tags.{tags_of, places, print_info-AreTags}

-- 40 bytes at 0x1000 with a tag of 12 bytes and kind 1, and a memory map of 16 bytes without entries.
abbrev boot_information : Mem
boot_information =
    store32
      (store32
        (store32 (store32 (store32 (store32 (λ x. 0) 0x1000 40) 0x1008 1) 0x100c 12) 0x1018 6)
        0x101c 16)
      0x1020 24

print_info-AreTags_example :
    (ls : List Line) × (print_info 0x100000 0x105000 0x1000 boot_information
      ≡ some (kernel 0x100000 0x105000 ∷ address 0x1000 ∷ ls))
    × (tags_of ls ≡ places 8 (12 ∷ 16 ∷ []))
unfolding load32 store32
print_info-AreTags_example =
    print_info-AreTags 0x100000 0x105000 0x1000 boot_information (12 ∷ 16 ∷ []) (omega arith) (
      omega arith,
      refl,
      omega arith,
      omega arith,
      (λ e. absurd (omega arith)),
      (omega arith, refl, omega arith, omega arith, (λ e. (omega arith, omega arith)), omega arith),
    )

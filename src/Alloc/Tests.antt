-- ===== src/Alloc/Tests.antt =====
-- The allocator's theorems at concrete inputs.
use frog_os.Base.{◌+◌, ◌^◌, ◌<◌, ◌≤◌, ◌≡◌, ◌⊎◌, refl, arith, [], ◌∷◌}
use frog_os.Memory.{Mem, load32, store32}
use frog_os.Alloc.{max_blocks, Store, returns, alloc}
use frog_os.Alloc.Bump.{IsBump, Given, units, alloc_bump}
use frog_os.Alloc.Run.{AllocatesApart, alloc_all-AreApart}
use frog_os.Base.{some, u32}
use frog_os.Alloc.Print.{print_mem, lines, sizes, print_mem-FreeList}
use frog_os.Alloc.Aligned.{IsSplit, alloc-IsSplit, alloc_second, alloc_overrun}

abbrev empty : Mem
empty x = 0

-- One free block, from 0x1010 to 0x9000.
abbrev fresh : Store
fresh = record { high_mem = 0x1010; bytes = store32 (store32 empty 0x1010 0x7ff0) 0x1014 0 }

fresh-IsBump : IsBump 0x9000 fresh
unfolding load32 store32
fresh-IsBump = omega arith

alloc_bump_example :
    ((0x1010 + units 100 < 0x9000) × Given 0x9000 fresh fresh-IsBump 100 (alloc 100 1 fresh))
    ⊎ ((0x9000 ≤ 0x1010 + units 100) × (alloc 100 1 fresh ≡ returns 0 fresh))
alloc_bump_example = alloc_bump 0x9000 fresh fresh-IsBump 100 0 (omega arith) (omega arith)

alloc_all-AreApart_example : AllocatesApart 0x9000 fresh ((100, 0) ∷ (40000, 0) ∷ (12, 2) ∷ [])
alloc_all-AreApart_example =
    alloc_all-AreApart 0x9000 ((100, 0) ∷ (40000, 0) ∷ (12, 2) ∷ []) fresh fresh-IsBump
      (omega arith)

alloc-IsSplit_example :
    (s : Store) × (alloc 100 (2 ^ 12) fresh ≡ returns 0x2000 s) × IsSplit 0x9000 0x2000 112 fresh s
alloc-IsSplit_example =
    alloc-IsSplit 0x9000 12 100 fresh fresh-IsBump (omega arith) (omega arith) (omega arith)
      (omega arith) (omega arith)

-- One free block, from 0x8810 to 0x9000.
abbrev near : Store
near = record { high_mem = 0x8810; bytes = store32 (store32 empty 0x8810 0x7f0) 0x8814 0 }

near-IsBump : IsBump 0x9000 near
unfolding load32 store32
near-IsBump = omega arith

alloc_overrun_example : (s : Store) × (alloc 100 (2 ^ 15) near ≡ returns 0x10000 s)
alloc_overrun_example =
    alloc_overrun 0x9000 15 100 near near-IsBump (omega arith) (omega arith) (omega arith)
      (omega arith) (omega arith) (omega arith)

-- A block of 64 bytes at 0x1000 in front of one of 0x1000 bytes at 0x2000.
abbrev two_blocks : Store
two_blocks = record {
  high_mem = 0x1000;
  bytes =
      store32 (store32 (store32 (store32 empty 0x1000 64) 0x1004 0x2000) 0x2000 0x1000) 0x2004 0;
}

alloc_second_example :
    (s : Store) × (alloc 100 1 two_blocks ≡ returns 0x1000 s) × (s.high_mem ≡ 0x2070)
unfolding load32 store32
alloc_second_example =
    alloc_second 100 0x2000 two_blocks (omega arith) (omega arith) (omega arith) refl (omega arith)
      (omega arith) (omega arith) (omega arith) (omega arith)

-- Both blocks of the list above.
print_mem-FreeList_example :
    print_mem two_blocks
    ≡ some (
      lines two_blocks.bytes (0x1000 ∷ 0x2000 ∷ []),
      u32 (sizes two_blocks.bytes (0x1000 ∷ 0x2000 ∷ [])),
    )
unfolding load32 store32 max_blocks
print_mem-FreeList_example =
    print_mem-FreeList two_blocks (0x1000 ∷ 0x2000 ∷ []) (omega arith)
      (refl, omega arith, (refl, omega arith, refl))

-- ===== src/Info/Tags.antt =====
-- The walk over a well-formed list of tags ends, and shows each of them.
use frog_os.Base.{
  ℕ, zero, suc, ◌+◌, ◌*◌, ◌/◌, ◌^◌, ◌≤◌, ◌<◌, ◌≡◌, refl, ◌∙◌, ap, arith, u32, bit_and, not32,
}
use frog_os.Base.{List, [], ◌∷◌, ◌++◌, some, Bool-cases, ltb, ◌==◌, true, false, inl, inr}
use frog_os.Memory.{Mem, load32}
use frog_os.Alloc.{round_up}
use frog_os.Alloc.Bump.{round_up_pow}
use frog_os.Info.{
  Line, kernel, address, tag, range, print_ranges, tag_ranges, print_tags, print_info, load64,
}

-- The offset behind a tag.
abbrev pub behind : ℕ → ℕ → ℕ
behind idx s = idx + (s + 7) / 8 * 8

-- From the offset `idx` to `size` there are tags of the sizes `ss`, each starting at a multiple of 8; a
-- memory map, kind 6, has entries of some size.
abbrev pub AreTags : Mem → ℕ → ℕ → ℕ → List ℕ → Type 0
AreTags m mi size idx [] = size ≤ idx
AreTags m mi size idx (s ∷ ss) =
    (idx < size)
    × (load32 m (mi + idx + 4) ≡ s)
    × (0 < s)
    × (s ≤ 2 ^ 30)
    × (load32 m (mi + idx) ≡ 6 → (0 < load32 m (mi + idx + 8)) × (load32 m (mi + idx + 8) ≤ 2 ^ 30))
    × AreTags m mi size (behind idx s) ss

-- The tags among the lines, with their offsets and sizes, and lines without any.
pub tags_of : List Line → List (ℕ × ℕ)
tags_of [] = []
tags_of (kernel a b ∷ ls) = tags_of ls
tags_of (address a ∷ ls) = tags_of ls
tags_of (tag idx k s ∷ ls) = (idx, s) ∷ tags_of ls
tags_of (range a n k ∷ ls) = tags_of ls

abbrev AllRanges : List Line → Type 0
AllRanges [] = Unit
AllRanges (kernel a b ∷ ls) = ⊥
AllRanges (address a ∷ ls) = ⊥
AllRanges (tag idx k s ∷ ls) = ⊥
AllRanges (range a n k ∷ ls) = AllRanges ls

abbrev pub places : ℕ → List ℕ → List (ℕ × ℕ)
places idx [] = []
places idx (s ∷ ss) = (idx, s) ∷ places (behind idx s) ss

tags_of-append : (xs ys : List Line) → AllRanges xs → tags_of (xs ++ ys) ≡ tags_of ys
unfolding tags_of
tags_of-append [] ys h = refl
tags_of-append (kernel a b ∷ xs) ys h = absurd h
tags_of-append (address a ∷ xs) ys h = absurd h
tags_of-append (tag idx k s ∷ xs) ys h = absurd h
tags_of-append (range a n k ∷ xs) ys h = tags_of-append xs ys h

print_ranges-more :
    (n at i j : ℕ) (m : Mem) (ls : List Line)
    → ltb i (load32 m (at + 4)) ≡ true
    → u32 (i + load32 m (at + 8)) ≡ j
    → print_ranges n at j m ≡ some ls
    → print_ranges (suc n) at i m
      ≡ some (range (load64 m (at + i)) (load64 m (at + i + 8)) (load32 m (at + i + 16)) ∷ ls)
unfolding print_ranges
print_ranges-more n at i j m ls more next e = rw (more, next, e) refl

print_tags-more :
    (n mi idx j size : ℕ) (m : Mem) (rs ls : List Line)
    → ltb idx size ≡ true
    → tag_ranges (mi + idx) m ≡ some rs
    → u32 (idx + bit_and (u32 (load32 m (mi + idx + 4) + 7)) (not32 7)) ≡ j
    → print_tags n mi j size m ≡ some ls
    → print_tags (suc n) mi idx size m
      ≡ some (tag idx (load32 m (mi + idx)) (load32 m (mi + idx + 4)) ∷ rs ++ ls)
unfolding print_tags
print_tags-more n mi idx j size m rs ls on e next e' = rw (on, e, next, e') refl

print_ranges-AllRanges :
    (n at i : ℕ) (m : Mem)
    → 0 < n
    → load32 m (at + 4) < i + n
    → 0 < load32 m (at + 8)
    → load32 m (at + 8) ≤ 2 ^ 30
    → load32 m (at + 4) ≤ 2 ^ 30
    → (ls : List Line) × (print_ranges n at i m ≡ some ls) × AllRanges ls
unfolding print_ranges
print_ranges-AllRanges zero at i m n h pos small fits = absurd (omega arith)
print_ranges-AllRanges (suc n) at i m _ h pos small fits =
    elim (Bool-cases (ltb i (load32 m (at + 4)))) [
      | inr last ↦ ([], rw last refl, tt)
      | inl more ↦
          let lt : i < load32 m (at + 4) = ground arith in
          let next : u32 (i + load32 m (at + 8)) ≡ i + load32 m (at + 8) = omega arith in
          let (ls, e, all) =
            print_ranges-AllRanges n at (i + load32 m (at + 8)) m (omega arith) (omega arith) pos
              small fits in
          let line = range (load64 m (at + i)) (load64 m (at + i + 8)) (load32 m (at + i + 16)) in
          (line ∷ ls, print_ranges-more n at i (i + load32 m (at + 8)) m ls more next e, all)
    ]

step :
    (idx s : ℕ)
    → s ≤ 2 ^ 30
    → idx ≤ 2 ^ 31
    → u32 (idx + bit_and (u32 (s + 7)) (not32 7)) ≡ behind idx s
unfolding round_up
step idx s h k = rw (round_up_pow 3 s (omega arith) (omega arith)) (omega arith)

-- A tag's own lines.
tag_ranges-AllRanges :
    (at : ℕ) (m : Mem)
    → load32 m (at + 4) ≤ 2 ^ 30
    → (load32 m at ≡ 6 → (0 < load32 m (at + 8)) × (load32 m (at + 8) ≤ 2 ^ 30))
    → (ls : List Line) × (tag_ranges at m ≡ some ls) × AllRanges ls
unfolding tag_ranges
tag_ranges-AllRanges at m small entries = elim (Bool-cases (load32 m at == 6)) [
  | inr other ↦ ([], rw other refl, tt)
  | inl map ↦
      let (pos, le) = entries (ground arith) in
      let (ls, e, all) =
        print_ranges-AllRanges (suc (load32 m (at + 4))) at 16 m (omega arith) (omega arith) pos le
          small in
      (ls, rw map e, all)
]

print_tags-AreTags :
    (n mi idx size : ℕ) (m : Mem) (ss : List ℕ)
    → 0 < n
    → size < idx + n
    → size ≤ 2 ^ 30
    → AreTags m mi size idx ss
    → (ls : List Line) × (print_tags n mi idx size m ≡ some ls) × (tags_of ls ≡ places idx ss)
unfolding print_tags tags_of
print_tags-AreTags zero mi idx size m ss pos h fits tags = absurd (omega arith)
print_tags-AreTags (suc n) mi idx size m [] pos h fits tags =
    let last : ltb idx size ≡ false = ground arith in ([], rw last refl, refl)
print_tags-AreTags (suc n) mi idx size m (s ∷ ss) pos h fits
      (lt, sized, some_size, small, entries, tags) =
    let on : ltb idx size ≡ true = ground arith in
    let (rs, e, all) = tag_ranges-AllRanges (mi + idx) m (omega arith) entries in
    let (ls, e', shown) =
      print_tags-AreTags n mi (behind idx s) size m ss (omega arith) (omega arith) fits tags in
    let next =
      ap (λ (k : ℕ). u32 (idx + bit_and (u32 (k + 7)) (not32 7))) sized
      ∙ step idx s small (omega arith) in
    (
      tag idx (load32 m (mi + idx)) (load32 m (mi + idx + 4)) ∷ rs ++ ls,
      print_tags-more n mi idx (behind idx s) size m rs ls on e next e',
      ap (λ (k : ℕ). (idx, k) ∷ tags_of (rs ++ ls)) sized
          ∙ ap (λ (ts : List (ℕ × ℕ)). (idx, s) ∷ ts) (tags_of-append rs ls all ∙ shown),
    )

-- On a well-formed list of tags in at most 2 ^ 30 bytes, `print_info` ends: it shows the kernel's
-- addresses and the one of the boot information, and then every tag, with its offset and size, in their
-- order.
pub print_info-AreTags :
    (kernel_start kernel_end mi : ℕ) (m : Mem) (ss : List ℕ)
    → load32 m mi ≤ 2 ^ 30
    → AreTags m mi (load32 m mi) 8 ss
    → (ls : List Line) × (print_info kernel_start kernel_end mi m
        ≡ some (kernel kernel_start kernel_end ∷ address mi ∷ ls))
      × (tags_of ls ≡ places 8 ss)
unfolding print_info
print_info-AreTags kernel_start kernel_end mi m ss fits tags =
    let (ls, e, shown) =
      print_tags-AreTags (suc (load32 m mi)) mi 8 (load32 m mi) m ss (omega arith) (omega arith)
        fits tags in
    (ls, rw (print_info, e) refl, shown)

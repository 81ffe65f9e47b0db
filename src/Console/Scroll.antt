-- ===== src/Console/Scroll.antt =====
-- Fills and copies of cells, read cell by cell, and what `scroll` comes to.
use frog_os.Base.{ℕ, zero, suc, ◌+◌, ◌-◌, ◌≤◌, ◌<◌, ◌≡◌, ◌⊎◌, refl, ◌∙◌, sym, ap, arith, inl}
use frog_os.Base.{List, ◌++◌, length, get_or, set, drop, replicate, length-set, length-append}
use frog_os.Base.{
  length-drop, length-replicate, get_or-set_self, get_or-set_ne, get_or_ext, get_or-drop,
}
use frog_os.Base.{get_or-append_lt, get_or-append_ge, get_or-replicate}
use native.Mathlib.Decide.{dec_lt}
use native.Mathlib.Nat.{zero-add}
use frog_os.Console.{fill, copy}

pub length-fill : (xs : List ℕ) (i v n : ℕ) → length (fill xs i v n) ≡ length xs
unfolding fill
length-fill xs i v zero = refl
length-fill xs i v (suc n) = length-fill (set xs i v) (i + 1) v n ∙ length-set xs i v

pub length-copy : (xs : List ℕ) (d s n : ℕ) → length (copy xs d s n) ≡ length xs
unfolding copy
length-copy xs d s zero = refl
length-copy xs d s (suc n) = length-copy (set xs d _) (d + 1) (s + 1) n ∙ length-set xs d _

fill-outside :
    (xs : List ℕ) (i v n j : ℕ) → (j < i) ⊎ (i + n ≤ j) → get_or (fill xs i v n) j 0 ≡ get_or xs j 0
unfolding fill
fill-outside xs i v zero j h = refl
fill-outside xs i v (suc n) j h =
    fill-outside (set xs i v) (i + 1) v n j (omega arith) ∙ get_or-set_ne xs i j v 0 (omega arith)

fill-inside :
    (xs : List ℕ) (i v n j : ℕ)
    → i + n ≤ length xs
    → i ≤ j
    → j < i + n
    → get_or (fill xs i v n) j 0 ≡ v
unfolding fill
fill-inside xs i v zero j h lo hi = absurd (omega arith)
fill-inside xs i v (suc n) j h lo hi = elim (dec_lt i j) [
  | yes later ↦
      fill-inside (set xs i v) (i + 1) v n j (rw length-set (omega arith)) (omega arith)
        (omega arith)
  | no first ↦
      let e : j ≡ i = omega arith in
      rw e (
        fill-outside (set xs i v) (i + 1) v n i (inl (omega arith))
        ∙ get_or-set_self xs i v 0 (omega arith))
]

copy-outside :
    (xs : List ℕ) (d s n j : ℕ) → (j < d) ⊎ (d + n ≤ j) → get_or (copy xs d s n) j 0 ≡ get_or xs j 0
unfolding copy
copy-outside xs d s zero j h = refl
copy-outside xs d s (suc n) j h =
    copy-outside (set xs d _) (d + 1) (s + 1) n j (omega arith)
    ∙ get_or-set_ne xs d j _ 0 (omega arith)

-- A copy downwards reads each cell before it is overwritten.
copy-inside :
    (xs : List ℕ) (d s n i : ℕ)
    → d < s
    → s + n ≤ length xs
    → i < n
    → get_or (copy xs d s n) (d + i) 0 ≡ get_or xs (s + i) 0
unfolding copy
copy-inside xs d s zero i h len k = absurd (omega arith)
copy-inside xs d s (suc n) zero h len k =
    let e : d + 0 ≡ d = omega arith in
    let f : s + 0 ≡ s = omega arith in
    rw (e, f)
      (copy-outside (set xs d (get_or xs s 0)) (d + 1) (s + 1) n d (inl (omega arith))
        ∙ get_or-set_self xs d (get_or xs s 0) 0 (omega arith))
copy-inside xs d s (suc n) (suc i) h len k =
    let e : d + suc i ≡ d + 1 + i = omega arith in
    let f : s + suc i ≡ s + 1 + i = omega arith in
    let len' : s + 1 + n ≤ length (set xs d (get_or xs s 0)) = rw length-set (omega arith) in
    rw (e, f)
      (copy-inside (set xs d (get_or xs s 0)) (d + 1) (s + 1) n i (omega arith) len' (omega arith)
        ∙ get_or-set_ne xs d (s + 1 + i) (get_or xs s 0) 0 (omega arith))

-- Moving all rows up by one and blanking the last is dropping the first and appending a blank one.
pub scroll_rows :
    (xs : List ℕ) (v w n : ℕ)
    → 0 < w
    → length xs ≡ n + w
    → fill (copy xs 0 w n) n v w ≡ drop w xs ++ replicate w v
scroll_rows xs v w n pos len = get_or_ext 0 _ _ same_length at
  where
    moved : List ℕ
    moved = copy xs 0 w n

    kept : length (drop w xs) ≡ n
    kept = omega (arith, length-drop w xs)

    size : length (fill moved n v w) ≡ n + w
    size = length-fill moved n v w ∙ length-copy xs 0 w n ∙ len

    same_length : length (fill moved n v w) ≡ length (drop w xs ++ replicate w v)
    same_length =
        omega (arith, size, kept, length-append (drop w xs) (replicate w v), length-replicate w v)

    at :
        (i : ℕ)
        → i < length (fill moved n v w)
        → get_or (fill moved n v w) i 0 ≡ get_or (drop w xs ++ replicate w v) i 0
    at i h = elim (dec_lt i n) [
      | yes up ↦
          fill-outside moved n v w i (inl up)
          ∙ (rw (zero-add i) at (copy-inside xs 0 w n i pos (omega arith) up))
          ∙ sym (get_or-drop w i xs 0)
          ∙ sym (get_or-append_lt (drop w xs) (replicate w v) i 0 (omega (arith, kept)))
      | no low ↦
          fill-inside moved n v w i (omega (arith, length-copy xs 0 w n)) (omega arith)
            (omega (arith, size))
          ∙ sym (get_or-replicate w (i - n) v 0 (omega (arith, size)))
          ∙ ap (λ k. get_or (replicate w v) (i - k) 0) (sym kept)
          ∙ sym (get_or-append_ge (drop w xs) (replicate w v) i 0 (omega (arith, kept)))
    ]

pub fill_all : (xs : List ℕ) (v n : ℕ) → length xs ≡ n → fill xs 0 v n ≡ replicate n v
fill_all xs v n len =
    let size = length-fill xs 0 v n in
    get_or_ext 0 _ _ (omega (arith, size, length-replicate n v)) λ i h.
      fill-inside xs 0 v n i (omega arith) (omega arith) (omega (arith, size))
      ∙ sym (get_or-replicate n i v 0 (omega (arith, size)))

-- ===== src/Memory/Frame.antt =====
-- A frame that is written from its first byte on, from sources outside of it.
use frog_os.Base.{ℕ, ◌+◌, ◌≤◌, ◌≡◌, ◌⊎◌, refl, ◌∙◌, sym, ap, arith, u8, ◌>>>◌}
use frog_os.Base.{List, [], ◌∷◌, ◌++◌, length, length-append}
use frog_os.Memory.{Mem, store8, store16, store32, load32, memcpy, copy_in}
use frog_os.Memory.Laws.{IsBytes, store8-IsBytes}
use frog_os.Memory.Bytes.{read_bytes, read_bytes-same, copy_in-copy_in, copy_in-outside}
use frog_os.Memory.Bytes.{AllBytes, DifferIn, read_bytes-copy_in, copy_in-DifferIn}
use mathlib.Core.Path.{subst}
use frog_os.Memory.Bytes.{memcpy-copy_in, store16-bytes, store32-load32}

pub copy_in-IsBytes : (m : Mem) (a : ℕ) (xs : List ℕ) → IsBytes m → IsBytes (copy_in m a xs)
unfolding copy_in
copy_in-IsBytes m a [] b = b
copy_in-IsBytes m a (x ∷ xs) b = copy_in-IsBytes (store8 m a x) (a + 1) xs (store8-IsBytes m a x b)

-- The memory `m` with the first `k` bytes of the frame written.
abbrev pub Wrote : Mem → ℕ → ℕ → List ℕ → Mem → Type 0
Wrote m f k xs m' = (m' ≡ copy_in m f xs) × (length xs ≡ k)

-- A written frame reads back, and no other byte has changed.
pub Wrote-read :
    (m : Mem) (f k : ℕ) (xs : List ℕ) (m' : Mem)
    → Wrote m f k xs m'
    → AllBytes xs
    → (read_bytes m' f k ≡ xs) × DifferIn f k m m'
Wrote-read m f k xs m' (e, len) h =
    subst (λ n. (read_bytes m' f n ≡ xs) × DifferIn f n m m') len
      (subst (λ (t : Mem). (read_bytes t f (length xs) ≡ xs) × DifferIn f (length xs) m t) (sym e)
        (read_bytes-copy_in m f xs h, copy_in-DifferIn m f xs))

module _ (m : Mem) (f size : ℕ) where
  -- A region outside of the frame.
  abbrev pub IsAway : ℕ → ℕ → Type 0
  IsAway p n = (p + n ≤ f) ⊎ (f + size ≤ p)

  module _ (k : ℕ) (xs : List ℕ) (m' : Mem) (a : ℕ) (w : Wrote m f k xs m') (e : a ≡ f + k) where
    pub copy_in-Wrote :
        (n : ℕ) (ys : List ℕ) → length ys ≡ n → Wrote m f (k + n) (xs ++ ys) (copy_in m' a ys)
    copy_in-Wrote n ys len =
        let (em, el) = w in
        (
          ap (λ (t : Mem). copy_in t a ys) em ∙ copy_in-copy_in m f a xs ys (omega arith),
          omega (arith, length-append xs ys),
        )

    pub store8-Wrote : (v : ℕ) → Wrote m f (k + 1) (xs ++ v ∷ []) (store8 m' a v)
    store8-Wrote v = unfold copy_in in copy_in-Wrote 1 (v ∷ []) refl

    pub store16-Wrote :
        (v : ℕ) → Wrote m f (k + 2) (xs ++ u8 v ∷ u8 (v >>> 8) ∷ []) (store16 m' a v)
    store16-Wrote v =
        let (em, el) = copy_in-Wrote 2 (u8 v ∷ u8 (v >>> 8) ∷ []) refl in
        (store16-bytes m' a v ∙ em, el)

    same_away : (p n : ℕ) → IsAway p n → k ≤ size → read_bytes m' p n ≡ read_bytes m p n
    same_away p n away fits =
        let (em, el) = w in
        read_bytes-same m m' p n
          (λ x lo hi. ap (λ (t : Mem). t x) em ∙ copy_in-outside m f x xs (omega arith))

    pub memcpy-Wrote :
        (s n : ℕ)
        → IsAway s n
        → k + n ≤ size
        → length (read_bytes m s n) ≡ n
        → Wrote m f (k + n) (xs ++ read_bytes m s n) (memcpy m' a s n)
    memcpy-Wrote s n away fits len =
        let (em, el) = copy_in-Wrote n (read_bytes m s n) len in
        (
          memcpy-copy_in m' a s n (omega arith)
              ∙ ap (copy_in m' a) (same_away s n away (omega arith))
              ∙ em,
          el,
        )

    pub store32-Wrote :
        (p : ℕ)
        → IsAway p 4
        → k ≤ size
        → IsBytes m
        → Wrote m f (k + 4) (xs ++ read_bytes m p 4) (store32 m' a (load32 m' p))
    store32-Wrote p away fits b =
        let (em, el) = copy_in-Wrote 4 (read_bytes m p 4) refl in
        let b' : IsBytes m' =
          λ x. omega (arith, copy_in-IsBytes m f xs b x, ap (λ (t : Mem). t x) w.0) in
        (store32-load32 m' m' a p b' ∙ ap (copy_in m' a) (same_away p 4 away fits) ∙ em, el)

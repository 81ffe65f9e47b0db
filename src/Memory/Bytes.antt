-- ===== src/Memory/Bytes.antt =====
-- Writes as lists of bytes: contiguous writes make one copy.
use frog_os.Base.{ℕ, zero, suc, ◌+◌, ◌≤◌, ◌<◌, ◌≡◌, ◌⊎◌, refl, ◌∙◌, ap, arith, u8, inl, inr, ◌==◌}
use frog_os.Base.{List, [], ◌∷◌, ◌++◌, length, if◌then◌else◌, ◌>>>◌}
use native.Mathlib.Decide.{dec_lt}
use frog_os.Memory.{Mem, store8, store16, store32, load16, load32, memcpy, copy_in}
use frog_os.Memory.Laws.{IsBytes, store8-outside}

abbrev pub read_bytes : Mem → ℕ → ℕ → List ℕ
read_bytes m a zero = []
read_bytes m a (suc n) = m a ∷ read_bytes m (a + 1) n

abbrev pub AllBytes : List ℕ → Type 0
AllBytes [] = Unit
AllBytes (x ∷ xs) = (x < 256) × AllBytes xs

pub store8-u8 : (m : Mem) (a v w : ℕ) → u8 v ≡ u8 w → store8 m a v ≡ store8 m a w
unfolding store8
store8-u8 m a v w e = ap {B = Mem} (λ (u : ℕ). λ x. if x == a then u else m x) e

pub copy_in-copy_in :
    (m : Mem) (a b : ℕ) (xs ys : List ℕ)
    → b ≡ a + length xs
    → copy_in (copy_in m a xs) b ys ≡ copy_in m a (xs ++ ys)
unfolding copy_in
copy_in-copy_in m a b [] ys e = ap (λ c. copy_in m c ys) (omega arith)
copy_in-copy_in m a b (x ∷ xs) ys e = copy_in-copy_in (store8 m a x) (a + 1) b xs ys (omega arith)

pub copy_in-outside :
    (m : Mem) (a x : ℕ) (xs : List ℕ) → (x < a) ⊎ (a + length xs ≤ x) → copy_in m a xs x ≡ m x
unfolding copy_in
copy_in-outside m a x [] h = refl
copy_in-outside m a x (y ∷ ys) h =
    copy_in-outside (store8 m a y) (a + 1) x ys (omega arith)
    ∙ store8-outside m a y x (λ e. absurd (omega arith))

pub read_bytes-same :
    (m m' : Mem) (a n : ℕ)
    → ((x : ℕ) → a ≤ x → x < a + n → m' x ≡ m x)
    → read_bytes m' a n ≡ read_bytes m a n
read_bytes-same m m' a zero same = refl
read_bytes-same m m' a (suc n) same = rw (
  same a (omega arith) (omega arith),
  read_bytes-same m m' (a + 1) n (λ x lo hi. same x (omega arith) (omega arith)),
)

-- A copy reads back.
pub read_bytes-copy_in :
    (m : Mem) (a : ℕ) (xs : List ℕ) → AllBytes xs → read_bytes (copy_in m a xs) a (length xs) ≡ xs
unfolding copy_in
read_bytes-copy_in m a [] h = refl
read_bytes-copy_in m a (x ∷ xs) (h, hs) =
    let first : copy_in (store8 m a x) (a + 1) xs a ≡ x =
      copy_in-outside (store8 m a x) (a + 1) a xs (omega arith) ∙ unfold store8 in ground arith in
    rw (first, read_bytes-copy_in (store8 m a x) (a + 1) xs hs)

pub memcpy-copy_in :
    (m : Mem) (d s n : ℕ)
    → (d + n ≤ s) ⊎ (s + n ≤ d)
    → memcpy m d s n ≡ copy_in m d (read_bytes m s n)
unfolding memcpy copy_in
memcpy-copy_in m d s zero h = refl
memcpy-copy_in m d s (suc n) h =
    memcpy-copy_in (store8 m d (m s)) (d + 1) (s + 1) n (omega arith)
    ∙ ap (copy_in (store8 m d (m s)) (d + 1)) (
        read_bytes-same m (store8 m d (m s)) (s + 1) n
          (λ x lo hi. store8-outside m d (m s) x (λ e. absurd (omega arith))))

store8-cong :
    (m m' : Mem) (a a' v w : ℕ) → m ≡ m' → a ≡ a' → u8 v ≡ u8 w → store8 m a v ≡ store8 m' a' w
store8-cong m m' a a' v w em ea e =
    ap (λ (n : Mem). store8 n a v) em ∙ ap (λ (b : ℕ). store8 m' b v) ea ∙ store8-u8 m' a' v w e

pub store16-bytes : (m : Mem) (a v : ℕ) → store16 m a v ≡ copy_in m a (u8 v ∷ u8 (v >>> 8) ∷ [])
unfolding store16 copy_in
store16-bytes m a v =
    store8-cong _ _ (a + 1) (a + 1) (v >>> 8) (u8 (v >>> 8)) (store8-u8 m a v (u8 v) (omega arith))
      refl (omega arith)

-- Writing a word that was read copies its bytes.
pub store32-load32 :
    (m m' : Mem) (a p : ℕ)
    → IsBytes m'
    → store32 m a (load32 m' p) ≡ copy_in m a (read_bytes m' p 4)
unfolding store32 store16 copy_in load32 load16
store32-load32 m m' a p b =
    let two : p + 1 + 1 ≡ p + 2 = omega arith in
    let three : p + 1 + 1 + 1 ≡ p + 2 + 1 = omega arith in
    let v = load32 m' p in
    let b₀ = b p in
    let b₁ = b (p + 1) in
    let b₂ = b (p + 2) in
    let b₃ = b (p + 2 + 1) in
    store8-cong _ _ (a + 2 + 1) (a + 1 + 1 + 1) ((v >>> 16) >>> 8) (m' (p + 1 + 1 + 1))
      (store8-cong _ _ (a + 2) (a + 1 + 1) (v >>> 16) (m' (p + 1 + 1))
        (store8-cong _ _ (a + 1) (a + 1) (v >>> 8) (m' (p + 1))
          (store8-u8 m a v (m' p) (omega arith)) refl (omega arith))
        (omega arith) (rw two (omega arith)))
      (omega arith) (rw three (omega arith))

pub AllBytes-append : (xs ys : List ℕ) → AllBytes xs → AllBytes ys → AllBytes (xs ++ ys)
AllBytes-append [] ys h k = k
AllBytes-append (x ∷ xs) ys (h, hs) k = (h, AllBytes-append xs ys hs k)

pub read_bytes-AllBytes : (m : Mem) (a n : ℕ) → IsBytes m → AllBytes (read_bytes m a n)
read_bytes-AllBytes m a zero b = tt
read_bytes-AllBytes m a (suc n) b = (b a, read_bytes-AllBytes m (a + 1) n b)

-- The two memories differ at most in `n` bytes from `a` on.
abbrev pub DifferIn : ℕ → ℕ → Mem → Mem → Type 0
DifferIn a n m m' = (x : ℕ) → (m' x ≡ m x) ⊎ ((a ≤ x) × (x < a + n))

pub copy_in-DifferIn : (m : Mem) (a : ℕ) (xs : List ℕ) → DifferIn a (length xs) m (copy_in m a xs)
copy_in-DifferIn m a xs x = elim (dec_lt x a) [
  | yes low ↦ inl (copy_in-outside m a x xs (inl low))
  | no high ↦ elim (dec_lt x (a + length xs)) [
    | yes inside ↦ inr (omega arith)
    | no behind ↦ inl (copy_in-outside m a x xs (inr (omega arith)))
  ]
]

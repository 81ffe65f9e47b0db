-- ===== src/Network/Pool/Chain.antt =====
-- The free buffers as a chain in memory, and what linking and freeing do to it.
use frog_os.Base.{ℕ, zero, suc, ◌+◌, ◌*◌, ◌^◌, ◌≤◌, ◌<◌, ◌≡◌, ◌⊎◌, refl, ◌∙◌, sym, arith, inl, inr}
use frog_os.Base.{List, [], ◌∷◌, u32, ap}
use native.Mathlib.Decide.{dec_lt}
use mathlib.Core.Path.{subst}
use frog_os.Memory.{Mem, load16, load32, store32}
use frog_os.Memory.Laws.{load32-same, store32-outside, load32-store32_self}
use frog_os.Network.Pool.{link}

-- Buffers that do not overlap.
abbrev pub Apart : ℕ → ℕ → Type 0
Apart a b = (a + 2000 ≤ b) ⊎ (b + 2000 ≤ a)

abbrev pub AllApart : ℕ → List ℕ → Type 0
AllApart a [] = Unit
AllApart a (b ∷ bs) = Apart a b × AllApart a bs

-- A buffer is clear behind its link.
abbrev pub IsClear : Mem → ℕ → Type 0
IsClear m a = (i : ℕ) → (m (a + i) ≡ 0) ⊎ (i < 4) ⊎ (2000 ≤ i)

-- From `p` the links lead through the clear buffers `xs`, which lie apart, to the null pointer.
abbrev pub Pool : Mem → ℕ → List ℕ → Type 0
Pool m p [] = p ≡ 0
Pool m p (a ∷ xs) = (p ≡ a) × (0 < a) × AllApart a xs × IsClear m a × Pool m (load32 m a) xs

abbrev pub SameOutside : ℕ → Mem → Mem → Type 0
SameOutside b m m' = (x : ℕ) → (x < b) ⊎ (b + 2000 ≤ x) → m' x ≡ m x

load32-outside : (b a : ℕ) (m m' : Mem) → Apart b a → SameOutside b m m' → load32 m' a ≡ load32 m a
unfolding load32 load16
load32-outside b a m m' o same = ground (
  arith,
  same a (omega arith),
  same (a + 1) (omega arith),
  same (a + 2) (omega arith),
  same (a + 2 + 1) (omega arith),
)

IsClear-outside :
    (b a : ℕ) (m m' : Mem) → Apart b a → SameOutside b m m' → IsClear m a → IsClear m' a
IsClear-outside b a m m' o same clear i = elim (clear i) [
  | inr out ↦ inr out
  | inl e ↦ elim (dec_lt i 2000) [
    | no far ↦ inr (inr (omega arith))
    | yes near ↦ inl (same (a + i) (omega arith) ∙ e)
  ]
]

pub Pool-outside :
    (b p : ℕ) (xs : List ℕ) (m m' : Mem)
    → AllApart b xs
    → SameOutside b m m'
    → Pool m p xs
    → Pool m' p xs
Pool-outside b p [] m m' o same e = e
Pool-outside b p (a ∷ xs) m m' (o, os) same (e, pos, ap, clear, rest) = (
  e,
  pos,
  ap,
  IsClear-outside b a m m' o same clear,
  rw (load32-outside b a m m' o same) (Pool-outside b (load32 m a) xs m m' os same rest),
)

-- `n` buffers, one behind the other.
unfoldable pub blocks : ℕ → ℕ → List ℕ
blocks zero at = []
blocks (suc n) at = at ∷ blocks n (at + 2000)

pub blocks-AllApart : (n a at : ℕ) → a + 2000 ≤ at → AllApart a (blocks n at)
unfolding blocks
blocks-AllApart zero a at h = tt
blocks-AllApart (suc n) a at h = (inl h, blocks-AllApart n a (at + 2000) (omega arith))

pub link-outside : (n at x : ℕ) (m : Mem) → (x < at) ⊎ (at + 2000 * n ≤ x) → link n at m x ≡ m x
unfolding link
link-outside zero at x m h = refl
link-outside (suc n) at x m h =
    link-outside n (at + 2000) x (store32 m at (u32 (at + 2000))) (omega arith)
    ∙ store32-outside m at (u32 (at + 2000)) x (omega arith)

-- All bytes of the next buffers are 0.
abbrev pub Blank : ℕ → ℕ → Mem → Type 0
Blank n at m = (x : ℕ) → at ≤ x → x < at + 2000 * n → m x ≡ 0

Blank-IsClear : (n at : ℕ) (m : Mem) → Blank (n + 1) at m → IsClear m at
Blank-IsClear n at m blank i = elim (dec_lt i 2000) [
  | yes h ↦ inl (blank (at + i) (omega arith) (omega arith))
  | no h ↦ inr (inr (omega arith))
]

load32-blank : (a : ℕ) (m : Mem) → ((x : ℕ) → a ≤ x → x < a + 4 → m x ≡ 0) → load32 m a ≡ 0
load32-blank a m nil = load32-same a (λ x. 0) m nil ∙ unfold load32 load16 in refl

-- A link that the loop has written stays, and so does the blank behind it.
link-first :
    (n at v : ℕ) (m : Mem) → v < 2 ^ 32 → load32 (link n (at + 2000) (store32 m at v)) at ≡ v
link-first n at v m h =
    load32-same at (store32 m at v) (link n (at + 2000) (store32 m at v))
      (λ x lo hi. link-outside n (at + 2000) x (store32 m at v) (inl (omega arith)))
    ∙ load32-store32_self m at v h

link-IsClear :
    (n at v k : ℕ) (m : Mem) → Blank (k + 1) at m → IsClear (link n (at + 2000) (store32 m at v)) at
link-IsClear n at v k m blank i = elim (dec_lt i 4) [
  | yes low ↦ inr (inl low)
  | no low ↦ elim (dec_lt i 2000) [
    | no far ↦ inr (inr (omega arith))
    | yes near ↦ inl (
        link-outside n (at + 2000) (at + i) (store32 m at v) (inl (omega arith))
        ∙ store32-outside m at v (at + i) (inr (omega arith))
        ∙ blank (at + i) (omega arith) (omega arith))
  ]
]

pub link-Pool :
    (n at : ℕ) (m : Mem)
    → 0 < at
    → at + 2000 * (n + 1) ≤ 2 ^ 32
    → Blank (n + 1) at m
    → Pool (link n at m) at (blocks (suc n) at)
unfolding blocks store32 link
link-Pool zero at m pos h blank = (
  refl,
  pos,
  tt,
  Blank-IsClear zero at m blank,
  load32-blank at m (λ x lo hi. blank x lo (omega arith)),
)
link-Pool (suc n) at m pos h blank =
    let next : u32 (at + 2000) ≡ at + 2000 = omega arith in
    let m₁ = store32 m at (at + 2000) in
    let blank' : Blank (n + 1) (at + 2000) m₁ = λ x lo hi.
      store32-outside m at (at + 2000) x (inr (omega arith))
      ∙ blank x (omega arith) (omega arith) in
    let rest = link-Pool n (at + 2000) m₁ (omega arith) (omega arith) blank' in
    let first = link-first n at (at + 2000) m (omega arith) in
    subst (λ v. Pool (link n (at + 2000) (store32 m at v)) at (blocks (suc (suc n)) at)) (sym next)
      (
        refl,
        pos,
        blocks-AllApart (suc n) at (at + 2000) (omega arith),
        link-IsClear n at (at + 2000) (suc n) m blank,
        rw first rest,
      )

-- ===== src/Memory/Laws.antt =====
-- What a read finds after a write, a fill or a copy.
use frog_os.Base.{
  ℕ, zero, suc, ◌+◌, ◌^◌, ◌≤◌, ◌<◌, ◌≡◌, ◌≢◌, ◌⊎◌, refl, arith, u8, ◌>>>◌, inl, inr, ◌==◌,
  Bool-cases,
}
use frog_os.Memory.{Mem, store8, load16, store16, load32, store32, memset, memcpy}

-- Every byte holds eight bits.
abbrev pub IsBytes : Mem → Type 0
IsBytes m = (x : ℕ) → m x < 256

pub store8-IsBytes : (m : Mem) (a v : ℕ) → IsBytes m → IsBytes (store8 m a v)
unfolding store8
store8-IsBytes m a v h x = ground (arith, h x)

pub store8_self : (m : Mem) (a v : ℕ) → v < 256 → store8 m a v a ≡ v
unfolding store8
store8_self m a v h = ground arith

pub store8-outside : (m : Mem) (a v x : ℕ) → x ≢ a → store8 m a v x ≡ m x
unfolding store8
store8-outside m a v x h = ground arith

pub store16-IsBytes : (m : Mem) (a v : ℕ) → IsBytes m → IsBytes (store16 m a v)
unfolding store16
store16-IsBytes m a v h = store8-IsBytes (store8 m a v) (a + 1) (v >>> 8) (store8-IsBytes m a v h)

pub load16-store16_self : (m : Mem) (a v : ℕ) → v < 2 ^ 16 → load16 (store16 m a v) a ≡ v
unfolding load16 store16 store8
load16-store16_self m a v h = ground arith

pub load16-store16_ne :
    (m : Mem) (a v b : ℕ) → (b + 2 ≤ a) ⊎ (a + 2 ≤ b) → load16 (store16 m a v) b ≡ load16 m b
unfolding load16 store16 store8
load16-store16_ne m a v b h = ground arith

pub load32-store32_self : (m : Mem) (a v : ℕ) → v < 2 ^ 32 → load32 (store32 m a v) a ≡ v
unfolding load32 store32 store8
load32-store32_self m a v h = ground arith

pub store32-outside : (m : Mem) (a v x : ℕ) → (x < a) ⊎ (a + 4 ≤ x) → store32 m a v x ≡ m x
unfolding store32 store8
store32-outside m a v x h = ground arith

pub load32-store32_ne :
    (m : Mem) (a v b : ℕ) → (b + 4 ≤ a) ⊎ (a + 4 ≤ b) → load32 (store32 m a v) b ≡ load32 m b
unfolding load32
load32-store32_ne m a v b h = ground (
  arith,
  store32-outside m a v b,
  store32-outside m a v (b + 1),
  store32-outside m a v (b + 2),
  store32-outside m a v (b + 2 + 1),
)

pub memset-outside : (m : Mem) (s c n x : ℕ) → (x < s) ⊎ (s + n ≤ x) → memset m s c n x ≡ m x
unfolding memset store8
memset-outside m s c zero x h = refl
memset-outside m s c (suc n) x h = ground (arith, memset-outside (store8 m s c) (s + 1) c n x)

-- `memset` fills its range and leaves all else alone.
pub memset-inside : (m : Mem) (s c n x : ℕ) → s ≤ x → x < s + n → memset m s c n x ≡ u8 c
unfolding memset store8
memset-inside m s c zero x h k = absurd (omega arith)
memset-inside m s c (suc n) x h k = elim (Bool-cases (x == s)) [
  | inl first ↦ ground (arith, memset-outside (store8 m s c) (s + 1) c n x)
  | inr later ↦ ground (arith, memset-inside (store8 m s c) (s + 1) c n x)
]

pub memcpy-outside : (m : Mem) (d s n x : ℕ) → (x < d) ⊎ (d + n ≤ x) → memcpy m d s n x ≡ m x
unfolding memcpy store8
memcpy-outside m d s zero x h = refl
memcpy-outside m d s (suc n) x h =
    ground (arith, memcpy-outside (store8 m d (m s)) (d + 1) (s + 1) n x)

-- `memcpy` between ranges that do not overlap copies each byte.
pub memcpy-inside :
    (m : Mem) (d s n i : ℕ)
    → IsBytes m
    → (d + n ≤ s) ⊎ (s + n ≤ d)
    → i < n
    → memcpy m d s n (d + i) ≡ m (s + i)
unfolding memcpy
memcpy-inside m d s zero i b h k = absurd (omega arith)
memcpy-inside m d s (suc n) zero b h k =
    let e : d + 0 ≡ d = omega arith in
    let f : s + 0 ≡ s = omega arith in
    rw (e, f)
      (ground
        (arith, memcpy-outside (store8 m d (m s)) (d + 1) (s + 1) n d, store8_self m d (m s) (b s)))
memcpy-inside m d s (suc n) (suc i) b h k =
    let e : d + suc i ≡ d + 1 + i = omega arith in
    let f : s + suc i ≡ s + 1 + i = omega arith in
    rw (e, f)
      (ground (
        arith,
        memcpy-inside (store8 m d (m s)) (d + 1) (s + 1) n i (store8-IsBytes m d (m s) b),
        store8-outside m d (m s) (s + 1 + i),
      ))

pub load32-lt : (m : Mem) (a : ℕ) → IsBytes m → load32 m a < 2 ^ 32
unfolding load32
load32-lt m a h = omega (arith, h a, h (a + 1), h (a + 2), h (a + 2 + 1))

pub store32-IsBytes : (m : Mem) (a v : ℕ) → IsBytes m → IsBytes (store32 m a v)
unfolding store32
store32-IsBytes m a v h =
    store8-IsBytes _ _ _ (store8-IsBytes _ _ _ (store8-IsBytes _ _ _ (store8-IsBytes m a v h)))

pub load32-same :
    (a : ℕ) (m m' : Mem) → ((x : ℕ) → a ≤ x → x < a + 4 → m' x ≡ m x) → load32 m' a ≡ load32 m a
unfolding load32 load16
load32-same a m m' same = ground (
  arith,
  same a (omega arith) (omega arith),
  same (a + 1) (omega arith) (omega arith),
  same (a + 2) (omega arith) (omega arith),
  same (a + 2 + 1) (omega arith) (omega arith),
)

pub memset-IsBytes : (m : Mem) (a v n : ℕ) → IsBytes m → IsBytes (memset m a v n)
unfolding memset
memset-IsBytes m a v zero b = b
memset-IsBytes m a v (suc n) b = memset-IsBytes (store8 m a v) (a + 1) v n (store8-IsBytes m a v b)

pub store16-outside : (m : Mem) (a v x : ℕ) → (x < a) ⊎ (a + 2 ≤ x) → store16 m a v x ≡ m x
unfolding store16 store8
store16-outside m a v x h = ground arith

pub memcpy-IsBytes : (m : Mem) (d s n : ℕ) → IsBytes m → IsBytes (memcpy m d s n)
unfolding memcpy
memcpy-IsBytes m d s zero b = b
memcpy-IsBytes m d s (suc n) b =
    memcpy-IsBytes (store8 m d (m s)) (d + 1) (s + 1) n (store8-IsBytes m d (m s) b)

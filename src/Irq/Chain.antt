-- ===== src/Irq/Chain.antt =====
-- The chain of an interrupt's handler records, and what installing and removing one does to it.
use frog_os.Base.{
  ℕ, zero, suc, ◌+◌, ◌^◌, ◌≤◌, ◌<◌, ◌≡◌, ◌≢◌, ◌⊎◌, refl, ◌∙◌, sym, ap, arith, inl, inr,
}
use frog_os.Base.{List, [], ◌∷◌, length, Option, some, true, false, ◌==◌, Bool-cases}
use frog_os.Base.{if◌then◌else◌}
use native.Mathlib.Decide.{ℕ_discrete as dec_eq}
use frog_os.Memory.{Mem, store32}
use frog_os.Memory.Laws.{
  IsBytes, load32-store32_self, load32-store32_ne, load32-lt, store32-IsBytes,
}
use frog_os.Irq.{next_of, unlink}

-- Records of twelve bytes that do not overlap.
abbrev pub Apart : ℕ → ℕ → Type 0
Apart a b = (a + 12 ≤ b) ⊎ (b + 12 ≤ a)

abbrev pub AllApart : ℕ → List ℕ → Type 0
AllApart a [] = Unit
AllApart a (b ∷ bs) = Apart a b × AllApart a bs

-- From `p` the `next` fields lead through the records `xs`, which lie apart, to the null pointer.
abbrev pub Chain : Mem → ℕ → List ℕ → Type 0
Chain m p [] = p ≡ 0
Chain m p (a ∷ xs) = (p ≡ a) × (0 < a) × AllApart a xs × Chain m (next_of m a) xs

-- Without the first occurrence of a record.
pub remove : ℕ → List ℕ → List ℕ
remove h [] = []
remove h (a ∷ xs) = let rest = remove h xs in if a == h then xs else a ∷ rest

AllApart-remove : (h c : ℕ) (xs : List ℕ) → AllApart c xs → AllApart c (remove h xs)
unfolding remove
AllApart-remove h c [] o = o
AllApart-remove h c (a ∷ xs) (o, os) = elim (Bool-cases (a == h)) [
  | inl e ↦ rw e os
  | inr e ↦ rw e (o, AllApart-remove h c xs os)
]

-- A write to the `next` field of another record.
pub next_of-store_ne :
    (m : Mem) (a v c : ℕ) → Apart c a → next_of (store32 m (a + 8) v) c ≡ next_of m c
next_of-store_ne m a v c o = load32-store32_ne m (a + 8) v (c + 8) (omega arith)

pub Chain-store :
    (m : Mem) (a v p : ℕ) (xs : List ℕ)
    → AllApart a xs
    → Chain m p xs
    → Chain (store32 m (a + 8) v) p xs
Chain-store m a v p [] o e = e
Chain-store m a v p (b ∷ xs) (o, os) (e, pos, ap, ch) =
    let same : next_of (store32 m (a + 8) v) b ≡ next_of m b =
      next_of-store_ne m a v b (omega arith) in
    (e, pos, ap, rw same (Chain-store m a v (next_of m b) xs os ch))

-- Linking a record in front of a chain.
pub Chain-link :
    (m : Mem) (h p : ℕ) (xs : List ℕ)
    → 0 < h
    → p < 2 ^ 32
    → AllApart h xs
    → Chain m p xs
    → Chain (store32 m (h + 8) p) h (h ∷ xs)
Chain-link m h p xs pos word o ch =
    (refl, pos, o, rw (load32-store32_self m (h + 8) p word) (Chain-store m h p p xs o ch))

-- The walk ends in a memory that holds the chain without the record, and in which the `next` field
-- of any record apart from the chain's is as before.
abbrev pub Unlinks : Mem → ℕ → ℕ → List ℕ → Option Mem → Type 0
Unlinks m p h xs o =
    (m' : Mem) × (o ≡ some m')
    × Chain m' p (remove h xs)
    × IsBytes m'
    × ((c : ℕ) → AllApart c xs → next_of m' c ≡ next_of m c)

unlink-zero : (f h : ℕ) (m : Mem) → unlink (suc f) 0 h m ≡ some m
unfolding unlink
unlink-zero f h m = refl

unlink_here :
    (f p h : ℕ) (m : Mem)
    → 0 < p
    → next_of m p ≡ h
    → unlink (suc f) p h m ≡ some (store32 m (p + 8) (next_of m h))
unfolding unlink
unlink_here f p h m pos e =
    let on : (p == 0) ≡ false = ground arith in
    let at : (next_of m p == h) ≡ true = ground arith in rw (on, at)

unlink_further :
    (f p h : ℕ) (m : Mem)
    → 0 < p
    → next_of m p ≢ h
    → unlink (suc f) p h m ≡ unlink f (next_of m p) h m
unfolding unlink
unlink_further f p h m pos ne =
    let on : (p == 0) ≡ false = ground arith in
    let at : (next_of m p == h) ≡ false = ground arith in rw (on, at)

remove_other : (h a : ℕ) (xs : List ℕ) → a ≢ h → remove h (a ∷ xs) ≡ a ∷ remove h xs
unfolding remove
remove_other h a xs ne = let e : (a == h) ≡ false = ground arith in rw e

pub remove_self : (h : ℕ) (xs : List ℕ) → remove h (h ∷ xs) ≡ xs
unfolding remove
remove_self h xs = let e : (h == h) ≡ true = ground arith in rw e

-- The record behind `a` is the one to unlink.
Unlinks-here :
    (f a h : ℕ) (xs : List ℕ) (m : Mem)
    → 0 < h
    → a ≢ h
    → 0 < a
    → next_of m a ≡ h
    → IsBytes m
    → AllApart a xs
    → Chain m (next_of m a) xs
    → Unlinks m a h (a ∷ xs) (unlink (suc f) a h m)
Unlinks-here f a h [] m pos ne pa at b o ch = absurd (omega arith)
Unlinks-here f a h (a' ∷ xs) m pos ne pa at b (o, os) (e, pa', os', ch) =
    let same : a' ≡ h = sym e ∙ at in
    let v = next_of m h in
    let m' = store32 m (a + 8) v in
    let self = load32-store32_self m (a + 8) v (load32-lt m (h + 8) b) in
    let rest : Chain m v xs = rw same at ch in
    (
      m',
      unlink_here f a h m pa at,
      rw (same, remove_other h a (h ∷ xs) ne, remove_self h xs)
          (refl, pa, os, rw self (Chain-store m a v v xs os rest)),
      store32-IsBytes m (a + 8) v b,
      λ c oc. next_of-store_ne m a v c oc.0,
    )

pub unlink-Unlinks :
    (fuel p h : ℕ) (xs : List ℕ) (m : Mem)
    → length xs < fuel
    → 0 < h
    → p ≢ h
    → IsBytes m
    → Chain m p xs
    → Unlinks m p h xs (unlink fuel p h m)
unlink-Unlinks zero p h xs m l pos ne b ch = absurd (omega arith)
unlink-Unlinks (suc fuel) p h [] m l pos ne b e =
    rw e (m, unlink-zero fuel h m, unfold remove in refl, b, λ c o. refl)
unlink-Unlinks (suc fuel) p h (a ∷ xs) m l pos ne b (e, pa, o, ch) = elim (dec_eq (next_of m a) h) [
  | yes here ↦ rw e (Unlinks-here fuel a h xs m pos (rw e at ne) pa here b o ch)
  | no further ↦
      let ne' : a ≢ h = rw e at ne in
      let (m', r, ch', b', keep) =
        unlink-Unlinks fuel (next_of m a) h xs m (omega arith) pos further b ch in
      rw e (
        m',
        unlink_further fuel a h m pa further ∙ r,
        rw (remove_other h a xs ne') (refl, pa, AllApart-remove h a xs o, rw (keep a o) ch'),
        b',
        λ c oc. keep c oc.1,
      )
]

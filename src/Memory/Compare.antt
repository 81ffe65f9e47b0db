-- ===== src/Memory/Compare.antt =====
-- lib/memcmp.c: what it says of two runs of bytes.
use frog_os.Base.{ℕ, zero, suc, ◌+◌, ◌≡◌, ◌≢◌, ◌⊎◌, refl, ap, arith, inl, inr, Bool-cases, ◌==◌}
use frog_os.Base.{List, [], ◌∷◌}
use frog_os.Memory.{Mem, memcmp}
use frog_os.Memory.Bytes.{read_bytes}

head : List ℕ → ℕ
head [] = 0
head (x ∷ xs) = x

tail : List ℕ → List ℕ
tail [] = []
tail (x ∷ xs) = xs

-- `memcmp` is 1 when the bytes at both addresses are the same, and 0 when they are not.
pub memcmp-read_bytes :
    (m : Mem) (a b n : ℕ)
    → ((memcmp m a b n ≡ 1) × (read_bytes m a n ≡ read_bytes m b n))
      ⊎ ((memcmp m a b n ≡ 0) × (read_bytes m a n ≢ read_bytes m b n))
unfolding memcmp head tail
memcmp-read_bytes m a b zero = inl (refl, refl)
memcmp-read_bytes m a b (suc n) = elim (Bool-cases (m a == m b)) [
  | inr differ ↦
      inr (rw differ refl, λ e. let first : m a ≡ m b = ap head e in absurd (ground arith))
  | inl same ↦
      let first : m a ≡ m b = ground arith in
      elim (memcmp-read_bytes m (a + 1) (b + 1) n) [
        | inl (one, e) ↦ inl (rw (same, one) refl, rw (first, e) refl)
        | inr (nil, ne) ↦ inr (rw (same, nil) refl, λ e. ne (ap tail e))
      ]
]

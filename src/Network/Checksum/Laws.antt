-- ===== src/Network/Checksum/Laws.antt =====
-- What `ip_cksum` computes, and that a buffer with its checksum in place verifies.
use frog_os.Base.{ℕ, zero, suc, ◌+◌, ◌-◌, ◌*◌, ◌/◌, ◌%◌, ◌^◌, ◌≤◌, ◌<◌, ◌≡◌, ◌⊎◌, refl, ◌∙◌, arith}
use frog_os.Base.{inl, u32, not32, bit_and, bit_and_mask, ◌==◌, ◌>>>◌}
use frog_os.Base.{true, false, Option, some, ap}
use native.Mathlib.Decide.{dec_lt}
use frog_os.Memory.{Mem, load16, load32, store16, store32, store8}
use frog_os.Memory.Laws.{
  IsBytes, store16-IsBytes, load16-store16_self, load16-store16_ne, load32-store32_self,
}
use frog_os.Network.Checksum.{htons, htonl, sum_words, fold_carries, ip_cksum}

-- Stored, `htons` of a 16-bit and `htonl` of a 32-bit number lie in memory with the highest byte
-- first, and a load that they are applied to gives the number back.
pub network_order :
    (m : Mem) (a s l : ℕ)
    → s < 2 ^ 16
    → l < 2 ^ 32
    → let m₁ = store16 m a (htons s) in
      let m₂ = store32 m a (htonl l) in
      (m₁ a * 256 + m₁ (a + 1) ≡ s)
      × (htons (load16 m₁ a) ≡ s)
      × (((m₂ a * 256 + m₂ (a + 1)) * 256 + m₂ (a + 2)) * 256 + m₂ (a + 3) ≡ l)
      × (htonl (load32 m₂ a) ≡ l)
unfolding htons htonl store16 store32 store8
network_order m a s l hs hl =
    let short = load16-store16_self m a (htons s) (omega arith) in
    let long = load32-store32_self m a (htonl l) (omega arith) in
    (ground arith, rw short (omega arith), ground arith, rw long (omega arith))

-- The sum of the little-endian words and of the odd byte, without wrap-around.
pub total : Mem → ℕ → ℕ → ℕ
total m buff zero = 0
total m buff (suc zero) = m buff
total m buff (suc (suc len)) = load16 m buff + total m (buff + 2) len

total-le : (m : Mem) (buff len : ℕ) → IsBytes m → total m buff len * 2 ≤ 65536 * (len + 1)
unfolding total load16
total-le m buff zero b = omega arith
total-le m buff (suc zero) b = omega (arith, b buff)
total-le m buff (suc (suc len)) b = omega (arith, b buff, b (buff + 1), total-le m (buff + 2) len b)

sum_words-total :
    (m : Mem) (len sum buff : ℕ)
    → sum + total m buff len < 2 ^ 32
    → sum_words sum m buff len ≡ sum + total m buff len
unfolding sum_words total
sum_words-total m zero sum buff h = omega arith
sum_words-total m (suc zero) sum buff h = omega arith
sum_words-total m (suc (suc len)) sum buff h =
    let exact : u32 (sum + load16 m buff) ≡ sum + load16 m buff = omega arith in
    rw exact (omega (arith, sum_words-total m len (sum + load16 m buff) (buff + 2) (omega arith)))

-- Folding the carries in.
abbrev Folded : ℕ → Option ℕ → Type 0
Folded sum o =
    (s : ℕ) × (q : ℕ) × (o ≡ some s) × (s < 2 ^ 16) × (sum ≡ s + 65535 * q) × ((0 < s) ⊎ (sum ≡ 0))

fold-done : (f sum : ℕ) → sum < 2 ^ 16 → Folded sum (fold_carries (suc f) sum)
unfolding fold_carries
fold-done f sum h =
    let end : ((sum >>> 16) == 0) ≡ true = ground arith in
    (sum, 0, rw end, h, omega arith, omega arith)

fold-step :
    (f sum : ℕ)
    → sum < 2 ^ 32
    → 2 ^ 16 ≤ sum
    → Folded (sum % 65536 + sum / 65536) (fold_carries f (sum % 65536 + sum / 65536))
    → Folded sum (fold_carries (suc f) sum)
unfolding fold_carries
fold-step f sum h big (s, q, e, small, mult, pos) =
    let on : ((sum >>> 16) == 0) ≡ false = ground arith in
    let next : u32 (bit_and sum 0xffff + (sum >>> 16)) ≡ sum % 65536 + sum / 65536 =
      rw (bit_and_mask 16 sum) (omega arith) in
    (s, q + sum / 65536, rw (on, next) e, small, omega arith, inl (omega arith))

fold_carries-Folded : (sum : ℕ) → sum < 2 ^ 32 → Folded sum (fold_carries 3 sum)
fold_carries-Folded sum h = elim (dec_lt sum (2 ^ 16)) [
  | yes small ↦ fold-done 2 sum small
  | no big ↦
      let once = sum % 65536 + sum / 65536 in
      fold-step 2 sum h (omega arith) (elim (dec_lt once (2 ^ 16)) [
        | yes small ↦ fold-done 1 once small
        | no big' ↦
            fold-step 1 once (omega arith) (omega arith)
              (fold-done 0 (once % 65536 + once / 65536) (omega arith))
      ])
]

ip_cksum-some :
    (m : Mem) (buff len sum s : ℕ)
    → sum_words 0 m buff len ≡ sum
    → fold_carries 3 sum ≡ some s
    → ip_cksum 0 m buff len ≡ some (bit_and (not32 s) 0xffff)
unfolding ip_cksum
ip_cksum-some m buff len sum s e f = rw (ip_cksum, e, f)

-- The checksum of at most 65536 bytes, started at 0, is found; it is a 16-bit number that takes the
-- sum of the words to a positive multiple of 65535, and it is 65535 for the sum 0 only.
pub ip_cksum_lem :
    (m : Mem) (buff len : ℕ)
    → IsBytes m
    → len ≤ 65536
    → (c : ℕ) × (q : ℕ) × (ip_cksum 0 m buff len ≡ some c)
      × (0 < q)
      × (total m buff len + c ≡ 65535 * q)
      × (c ≤ 65535)
      × ((c < 65535) ⊎ (total m buff len ≡ 0))
ip_cksum_lem m buff len b h =
    let bound = total-le m buff len b in
    let sum : sum_words 0 m buff len ≡ total m buff len =
      omega (arith, sum_words-total m len 0 buff (omega arith)) in
    let (s, q, e, small, mult, pos) = fold_carries-Folded (total m buff len) (omega arith) in
    let inverse : bit_and (not32 s) 0xffff ≡ 65535 - s =
      rw (bit_and_mask 16 (not32 s)) (omega arith) in
    (
      65535 - s,
      q + 1,
      ip_cksum-some m buff len (total m buff len) s sum e ∙ ap some inverse,
      omega arith,
      omega arith,
      omega arith,
      omega arith,
    )

-- A word's write, seen by the sum.
total-outside :
    (m : Mem) (len buff a v : ℕ) → a + 2 ≤ buff → total (store16 m a v) buff len ≡ total m buff len
unfolding total load16 store16 store8
total-outside m zero buff a v h = refl
total-outside m (suc zero) buff a v h = ground arith
total-outside m (suc (suc len)) buff a v h =
    ground (arith, total-outside m len (buff + 2) a v (omega arith))

load16-store16_at : (m : Mem) (a v b : ℕ) → a ≡ b → v < 2 ^ 16 → load16 (store16 m a v) b ≡ v
load16-store16_at m a v b e h = rw (← e) (load16-store16_self m a v h)

total-store16 :
    (m : Mem) (i len buff v a : ℕ)
    → a ≡ buff + 2 * i
    → 2 * i + 2 ≤ len
    → v < 2 ^ 16
    → load16 m a ≡ 0
    → total (store16 m a v) buff len ≡ total m buff len + v
unfolding total
total-store16 m i zero buff v a e h small nil = absurd (omega arith)
total-store16 m i (suc zero) buff v a e h small nil = absurd (omega arith)
total-store16 m zero (suc (suc len)) buff v a e h small nil =
    let here : a ≡ buff = omega arith in
    omega (
      arith,
      load16-store16_at m a v buff here small,
      total-outside m len (buff + 2) a v (omega arith),
      rw here at nil,
    )
total-store16 m (suc i) (suc (suc len)) buff v a e h small nil = omega (
  arith,
  load16-store16_ne m a v buff (inl (omega arith)),
  total-store16 m i len (buff + 2) v a (omega arith) (omega arith) small nil,
)

-- A buffer of at most 65536 bytes whose word at an even offset is 0 has a checksum; with that
-- checksum stored at that word, the buffer has the checksum 0.
pub ip_cksum-ip_cksum :
    (m : Mem) (buff len i : ℕ)
    → IsBytes m
    → len ≤ 65536
    → 2 * i + 2 ≤ len
    → load16 m (buff + 2 * i) ≡ 0
    → (c : ℕ) × (ip_cksum 0 m buff len ≡ some c)
      × (ip_cksum 0 (store16 m (buff + 2 * i) c) buff len ≡ some 0)
ip_cksum-ip_cksum m buff len i b h inside nil =
    let (c, q, e, pos, mult, le, top) = ip_cksum_lem m buff len b h in
    let m' = store16 m (buff + 2 * i) c in
    let (c', q', e', pos', mult', le', top') =
      ip_cksum_lem m' buff len (store16-IsBytes m (buff + 2 * i) c b) h in
    let sum = total-store16 m i len buff c (buff + 2 * i) refl inside (omega arith) nil in
    let zero' : c' ≡ 0 = omega arith in (c, e, e' ∙ ap some zero')

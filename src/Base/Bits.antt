-- ===== src/Base/Bits.antt =====
-- The bitwise operators of C split at any bit, masks and fields, and a check of all values of a
-- small range.
use Prim.Native.Nat.{ℕ, zero, suc, ◌+◌, ◌*◌, ◌/◌, ◌%◌, ◌^◌, ◌≤◌, ◌<◌, min, max}
use Prim.Native.Nat.{bit_and, bit_or, digits, bitwise}
use Prim.Native.Nat.{bit_and-bitwise, bit_or-bitwise}
use mathlib.Core.Path.{◌≡◌, refl, sym, ap, ◌∙◌}
use mathlib.Core.Bool.{Bool, true, ◌&&◌}
use native.Mathlib.Nat.{pow-suc, one-le-pow, mod-eq_of_lt}
use native.Mathlib.Omega.{arith}
use frog_os.Base.Tests.{◌==◌, ==_iff}
use frog_os.Base.Word.{◌<<<◌, low_mask}

-- `p` at every number below `n`, by evaluation.
unfoldable pub all_below : ℕ → (ℕ → Bool) → Bool
all_below zero p = true
all_below (suc n) p = p n && all_below n p

pub at_all_below : (n : ℕ) (p : ℕ → Bool) (x : ℕ) → all_below n p ≡ true → x < n → p x ≡ true
unfolding all_below
at_all_below zero p x h lt = absurd (omega arith)
at_all_below (suc n) p x h lt = ground (arith, at_all_below n p x)

-- An equation that evaluation finds to hold at every number below `n`.
pub eq_below :
    (n : ℕ) (f g : ℕ → ℕ) (x : ℕ) → all_below n (λ y. f y == g y) ≡ true → x < n → f x ≡ g x
eq_below n f g x h lt = (==_iff (f x) (g x)).0 (at_all_below n (λ y. f y == g y) x h lt)

module _ (z : ℕ → ℕ) (f : ℕ → ℕ → ℕ) where
  digits-zero : (n b : ℕ) → digits z f n 0 b ≡ z b
  digits-zero zero b = refl
  digits-zero (suc n) b = refl

  digits_agree : (n m a b : ℕ) → a ≤ n → a ≤ m → digits z f n a b ≡ digits z f m a b
  digits_agree n m zero b h k = digits-zero n b ∙ sym (digits-zero m b)
  digits_agree zero m (suc a) b h k = absurd (omega arith)
  digits_agree (suc n) zero (suc a) b h k = absurd (omega arith)
  digits_agree (suc n) (suc m) (suc a) b h k =
      let rest = digits_agree n m (suc a / 2) (b / 2) (omega arith) (omega arith) in rw rest

  bitwise_low :
      (a b : ℕ)
      → bitwise z f (suc a) b ≡ bitwise z f (suc a / 2) (b / 2) * 2 + f (suc a % 2) (b % 2)
  bitwise_low a b =
      let half : suc a / 2 ≤ a = omega arith in
      let e = digits_agree a (suc a / 2) (suc a / 2) (b / 2) half (omega arith) in omega (arith, e)

-- The lowest bit apart from the others.
bit_or_low : (a b : ℕ) → bit_or a b ≡ bit_or (a / 2) (b / 2) * 2 + max (a % 2) (b % 2)
bit_or_low zero b = simp bit_or-bitwise (omega arith)
bit_or_low (suc a) b = simp bit_or-bitwise (bitwise_low (λ b. b) max a b)

bit_and_low : (a b : ℕ) → bit_and a b ≡ bit_and (a / 2) (b / 2) * 2 + min (a % 2) (b % 2)
bit_and_low zero b = simp bit_and-bitwise (omega arith)
bit_and_low (suc a) b = simp bit_and-bitwise (bitwise_low (λ b. 0) min a b)

double_shift : (q k : ℕ) → q * 2 ^ suc k ≡ 2 * (q * 2 ^ k)
double_shift q k = omega (arith, ap (λ (t : ℕ). q * t) (pow-suc 2 k))

-- An operator that works bit by bit works on the high and the low bits apart.
module _ (op bit : ℕ → ℕ → ℕ) (zeros : op 0 0 ≡ 0)
    (low : (a b : ℕ) → op a b ≡ op (a / 2) (b / 2) * 2 + bit (a % 2) (b % 2)) where
  split :
      (k q r s t : ℕ)
      → r < 2 ^ k
      → t < 2 ^ k
      → op (q * 2 ^ k + r) (s * 2 ^ k + t) ≡ op q s * 2 ^ k + op r t
  split zero q r s t hr ht =
      let er : r ≡ 0 = omega arith in
      let et : t ≡ 0 = omega arith in
      let eq : q * 2 ^ 0 + 0 ≡ q = omega arith in
      let es : s * 2 ^ 0 + 0 ≡ s = omega arith in rw (er, et, eq, es, zeros) (omega arith)
  split (suc k) q r s t hr ht = ground (
    arith,
    low (q * 2 ^ suc k + r) (s * 2 ^ suc k + t),
    low r t,
    double_shift q k,
    double_shift s k,
    double_shift (op q s) k,
    pow-suc 2 k,
    split k q (r / 2) s (t / 2) (omega (arith, pow-suc 2 k)) (omega (arith, pow-suc 2 k)),
  )

pub bit_or_split :
    (k q r s t : ℕ)
    → r < 2 ^ k
    → t < 2 ^ k
    → bit_or (q * 2 ^ k + r) (s * 2 ^ k + t) ≡ bit_or q s * 2 ^ k + bit_or r t
bit_or_split = split bit_or max refl bit_or_low

pub bit_and_split :
    (k q r s t : ℕ)
    → r < 2 ^ k
    → t < 2 ^ k
    → bit_and (q * 2 ^ k + r) (s * 2 ^ k + t) ≡ bit_and q s * 2 ^ k + bit_and r t
bit_and_split = split bit_and min refl bit_and_low

bounded_induction : (P : ℕ → Type 0) → P 0 → ((a : ℕ) → P (a / 2) → P a) → (n a : ℕ) → a ≤ n → P a
bounded_induction P base step n zero h = base
bounded_induction P base step zero (suc a) h = absurd (omega arith)
bounded_induction P base step (suc n) (suc a) h =
    step (suc a) (bounded_induction P base step n (suc a / 2) (omega arith))

pub bit_or-zero : (a : ℕ) → bit_or a 0 ≡ a
bit_or-zero a =
    bounded_induction (λ x. bit_or x 0 ≡ x) refl (λ x ih. omega (arith, bit_or_low x 0, ih)) a a
      (omega arith)

pub zero-bit_or : (a : ℕ) → bit_or 0 a ≡ a
zero-bit_or a = simp bit_or-bitwise refl

pub bit_and-zero : (a : ℕ) → bit_and a 0 ≡ 0
bit_and-zero a =
    bounded_induction (λ x. bit_and x 0 ≡ 0) refl (λ x ih. omega (arith, bit_and_low x 0, ih)) a a
      (omega arith)

-- `(q << k) | r` is a sum when `r` fits `k` bits.
pub bit_or_fields : (k q r : ℕ) → r < 2 ^ k → bit_or (q <<< k) r ≡ q * 2 ^ k + r
bit_or_fields k q r h =
    let whole : q * 2 ^ k + 0 ≡ q * 2 ^ k = omega arith in
    let low : 0 * 2 ^ k + r ≡ r = omega arith in
    let e = bit_or_split k q 0 0 r (omega (arith, one-le-pow k 2)) h in
    rw (whole, low, bit_or-zero, zero-bit_or) at e

bit_and_ones : (k r : ℕ) → r < 2 ^ k → bit_and r (low_mask k) ≡ r
bit_and_ones zero r h = rw (bit_and-zero r) (omega arith)
bit_and_ones (suc k) r h = ground (
  arith,
  bit_and_low r (low_mask (suc k)),
  pow-suc 2 k,
  one-le-pow k 2,
  bit_and_ones k (r / 2) (omega (arith, pow-suc 2 k)),
)

-- `r | (q << k)` is a sum when `r` fits `k` bits.
pub bit_or_above : (k q r : ℕ) → r < 2 ^ k → bit_or r (q * 2 ^ k) ≡ q * 2 ^ k + r
bit_or_above k q r h =
    let low : 0 * 2 ^ k + r ≡ r = omega arith in
    let high : q * 2 ^ k + 0 ≡ q * 2 ^ k = omega arith in
    let e = bit_or_split k 0 r q 0 h (omega (arith, one-le-pow k 2)) in
    rw (low, high, bit_or-zero, zero-bit_or) at e

-- A mask of `k` ones is the remainder by `2 ^ k`.
pub bit_and_mask : (k a : ℕ) → bit_and a (low_mask k) ≡ a % 2 ^ k
bit_and_mask k a =
    let pos : 1 ≤ 2 ^ k = omega (arith, one-le-pow k 2) in
    let whole : a / 2 ^ k * 2 ^ k + a % 2 ^ k ≡ a = grind arith in
    let low : 0 * 2 ^ k + low_mask k ≡ low_mask k = omega arith in
    let small : a % 2 ^ k < 2 ^ k = grind arith in
    let e = bit_and_split k (a / 2 ^ k) (a % 2 ^ k) 0 (low_mask k) small (omega arith) in
    omega (arith, rw (whole, low, bit_and-zero) at e, bit_and_ones k (a % 2 ^ k) small)

-- A mask with `k` zeros below `n` ones rounds down to a multiple of `2 ^ k`.
pub bit_and_clear :
    (k n a : ℕ) → a < 2 ^ n * 2 ^ k → bit_and a (low_mask n * 2 ^ k) ≡ a / 2 ^ k * 2 ^ k
bit_and_clear k n a h =
    let pos : 1 ≤ 2 ^ k = omega (arith, one-le-pow k 2) in
    let whole : a / 2 ^ k * 2 ^ k + a % 2 ^ k ≡ a = grind arith in
    let ones : low_mask n * 2 ^ k + 0 ≡ low_mask n * 2 ^ k = omega arith in
    let small : a % 2 ^ k < 2 ^ k = grind arith in
    let high : a / 2 ^ k % 2 ^ n ≡ a / 2 ^ k = mod-eq_of_lt (grind arith) in
    let e = bit_and_split k (a / 2 ^ k) (a % 2 ^ k) (low_mask n) 0 small pos in
    let e' : bit_and a (low_mask n * 2 ^ k) ≡ bit_and (a / 2 ^ k) (low_mask n) * 2 ^ k + 0 =
      rw (whole, ones, bit_and-zero (a % 2 ^ k)) at e in
    omega (arith, e', ap (λ (t : ℕ). t * 2 ^ k) (bit_and_mask n (a / 2 ^ k) ∙ high))

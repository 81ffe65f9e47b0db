-- ===== src/Division/Quotient.antt =====
-- The quotient and the remainder of `__udivmoddi4`.
use frog_os.Base.{ℕ, zero, suc, ◌+◌, ◌-◌, ◌*◌, ◌/◌, ◌^◌, ◌≤◌, ◌<◌, ◌≡◌, ◌⊎◌, refl, ◌∙◌, arith}
use frog_os.Base.{inl, inr, u64, ltb, leb, ◌==◌, ◌<<<◌, if◌then◌else◌}
use frog_os.Base.{Bool, true, false, Bool-cases, Option, none, some}
use native.Mathlib.Nat.{pow-suc, one-le-pow, mul-one}
use frog_os.Base.{ap}
use frog_os.Division.{trap, divided, justify, subtract, udivmoddi4}

-- `x * 2 ^ k` one bit up and down.
double : (x k : ℕ) → x * 2 ^ suc k ≡ x * 2 ^ k * 2
double x k = grind (arith, pow-suc 2 k)

move_bit : (x k f : ℕ) → x * 2 ^ suc k * 2 ^ f ≡ x * 2 ^ k * 2 ^ suc f
move_bit x k f = rw (pow-suc 2 k, pow-suc 2 f) (omega arith)

le-mul : (x d : ℕ) → 0 < d → x ≤ x * d
le-mul zero d h = omega arith
le-mul (suc x) d h = grind (arith, le-mul x d h)

-- From a shift that has not reached the top, the loop finds one that has, within its fuel.
abbrev Justified : ℕ → ℕ → ℕ → Option (ℕ × ℕ) → Type 0
Justified d k f o =
    (j : ℕ) × (o ≡ some (d * 2 ^ j, 2 ^ j))
    × (j ≤ k + f)
    × (2 ^ 63 ≤ d * 2 ^ j)
    × (d * 2 ^ j < 2 ^ 64)

justify-below :
    (f den qbit : ℕ)
    → ltb den (2 ^ 63) ≡ true
    → justify (suc f) den qbit ≡ justify f (u64 (den <<< 1)) (u64 (qbit <<< 1))
unfolding justify
justify-below f den qbit below = rw below

justify-top :
    (f den qbit : ℕ) → ltb den (2 ^ 63) ≡ false → justify (suc f) den qbit ≡ some (den, qbit)
unfolding justify
justify-top f den qbit top = rw top

justify-Justified :
    (f k d : ℕ)
    → 0 < d
    → d * 2 ^ k < 2 ^ 64
    → 2 ^ 63 ≤ d * 2 ^ k * 2 ^ f
    → Justified d k f (justify (suc f) (d * 2 ^ k) (2 ^ k))
justify-Justified zero k d pos h top =
    let there : ltb (d * 2 ^ k) (2 ^ 63) ≡ false = ground arith in
    (k, justify-top zero _ _ there, omega arith, omega arith, h)
justify-Justified (suc f) k d pos h top = elim (Bool-cases (ltb (d * 2 ^ k) (2 ^ 63))) [
  | inr there ↦ (k, justify-top (suc f) _ _ there, omega arith, ground arith, h)
  | inl below ↦
      let small : d * 2 ^ k < 2 ^ 63 = ground arith in
      let bit : 2 ^ k ≤ d * 2 ^ k = grind (arith, le-mul (2 ^ k) d pos) in
      let up : u64 ((d * 2 ^ k) <<< 1) ≡ d * 2 ^ suc k = omega (arith, double d k) in
      let up_bit : u64 ((2 ^ k) <<< 1) ≡ 2 ^ suc k = omega (arith, pow-suc 2 k) in
      let (j, e, le, lo, hi) =
        justify-Justified f (suc k) d pos (omega (arith, double d k)) (rw (move_bit d k f) top) in
      (
        j,
        justify-below (suc f) (d * 2 ^ k) (2 ^ k) below
            ∙ ap (λ x. justify (suc f) x (u64 ((2 ^ k) <<< 1))) up
            ∙ ap (λ x. justify (suc f) (d * 2 ^ suc k) x) up_bit
            ∙ e,
        omega arith,
        lo,
        hi,
      )
]

-- The rest of the loop keeps the numerator, and leaves less than the denominator.
abbrev Divided : ℕ → ℕ → Option (ℕ × ℕ) → Type 0
Divided d n o = (q : ℕ) × (r : ℕ) × (o ≡ some (q, r)) × (q * d + r ≡ n) × (r < d)

-- One round at the shift `k`.
abbrev num_after : ℕ → ℕ → ℕ
num_after num den = if leb den num then num - den else num

abbrev quot_after : ℕ → ℕ → ℕ → ℕ → ℕ
quot_after num den qbit quot = if leb den num then u64 (quot + qbit) else quot

abbrev Round : ℕ → ℕ → ℕ → ℕ → ℕ → ℕ → Type 0
Round d den num quot num' quot' = (quot' * d + num' ≡ quot * d + num) × (num' < den)

subtract-Round :
    (k num d quot : ℕ)
    → 0 < d
    → num < d * 2 ^ k * 2
    → quot * d + num < 2 ^ 64
    → Round d
        (d * 2 ^ k)
        num
        quot
        (num_after num (d * 2 ^ k))
        (quot_after num (d * 2 ^ k) (2 ^ k) quot)
subtract-Round k num d quot pos h small = elim (Bool-cases (leb (d * 2 ^ k) num)) [
  | inl fits ↦
      let le : d * 2 ^ k ≤ num = ground arith in
      let sum : (quot + 2 ^ k) * d + (num - d * 2 ^ k) ≡ quot * d + num = grind arith in
      let bound : quot + 2 ^ k ≤ (quot + 2 ^ k) * d = le-mul (quot + 2 ^ k) d pos in
      let exact : u64 (quot + 2 ^ k) ≡ quot + 2 ^ k = omega arith in
      rw (fits, exact) (sum, omega arith)
  | inr less ↦ rw less (refl, ground arith)
]

subtract-suc :
    (k f num d quot : ℕ)
    → subtract (suc f) num (d * 2 ^ k) (2 ^ k) quot
      ≡ subtract f
          (num_after num (d * 2 ^ k))
          (d * 2 ^ k / 2)
          (2 ^ k / 2)
          (quot_after num (d * 2 ^ k) (2 ^ k) quot)
unfolding subtract
subtract-suc k f num d quot =
    let on : (2 ^ k == 0) ≡ false = ground (arith, one-le-pow k 2) in rw on

subtract-Divided :
    (k f num d quot : ℕ)
    → 0 < d
    → num < d * 2 ^ k * 2
    → k + 2 ≤ f
    → quot * d + num < 2 ^ 64
    → Divided d (quot * d + num) (subtract f num (d * 2 ^ k) (2 ^ k) quot)
subtract-Divided k zero num d quot pos h fuel small = absurd (omega arith)
subtract-Divided zero (suc zero) num d quot pos h fuel small = absurd (omega arith)
subtract-Divided zero (suc (suc f)) num d quot pos h fuel small =
    let (same, less) = subtract-Round zero num d quot pos h small in
    (
      quot_after num (d * 2 ^ 0) (2 ^ 0) quot,
      num_after num (d * 2 ^ 0),
      subtract-suc zero (suc f) num d quot ∙ unfold subtract in refl,
      same,
      omega arith,
    )
subtract-Divided (suc k) (suc f) num d quot pos h fuel small =
    let (same, less) = subtract-Round (suc k) num d quot pos h small in
    let num' = num_after num (d * 2 ^ suc k) in
    let quot' = quot_after num (d * 2 ^ suc k) (2 ^ suc k) quot in
    let down : d * 2 ^ suc k / 2 ≡ d * 2 ^ k = omega (arith, double d k) in
    let bit_down : 2 ^ suc k / 2 ≡ 2 ^ k = omega (arith, pow-suc 2 k) in
    let (q, r, e, sum, lt) =
      subtract-Divided k f num' d quot' pos (omega (arith, double d k)) (omega arith)
        (omega arith) in
    (
      q,
      r,
      subtract-suc (suc k) f num d quot
          ∙ ap (λ x. subtract f num' x (2 ^ suc k / 2) quot') down
          ∙ ap (λ x. subtract f num' (d * 2 ^ k) x quot') bit_down
          ∙ e,
      sum ∙ same,
      lt,
    )

-- `__udivmoddi4` on 64-bit arguments ends. Dividing by 0 traps; otherwise it returns the quotient,
-- and stores the remainder where `rem_p` is not null.
pub udivmoddi4_lem :
    (num den : ℕ) (rem_p : Bool)
    → num < 2 ^ 64
    → den < 2 ^ 64
    → ((den ≡ 0) × (udivmoddi4 num den rem_p ≡ trap))
      ⊎ ((0 < den)
          × (q : ℕ) × (r : ℕ) × (udivmoddi4 num den rem_p
              ≡ divided q (if rem_p then some r else none))
          × (q * den + r ≡ num)
          × (r < den))
unfolding udivmoddi4
udivmoddi4_lem num den rem_p hn hd = elim (Bool-cases (den == 0)) [
  | inl nil ↦ inl (ground arith, rw nil)
  | inr on ↦
      let pos : 0 < den = ground arith in
      let (j, e, le, top, _) = justify-Justified 63 0 den pos (omega arith) (omega arith) in
      let (q, r, e', sum, lt) =
        subtract-Divided j 65 num den 0 pos (omega arith) (omega arith) (omega arith) in
      let start : justify 64 den 1 ≡ some (den * 2 ^ j, 2 ^ j) = rw (mul-one den) at e in
      inr (pos, q, r, rw (on, start, e'), omega (arith, sum), lt)
]

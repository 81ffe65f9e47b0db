-- ===== src/Division.antt =====
-- lib/gcc.c: the 64-bit unsigned division that the compiler calls.
pub mod Quotient
mod Tests
use frog_os.Base.{ℕ, zero, suc, ◌+◌, ◌-◌, ◌^◌, u64, ltb, leb, ◌==◌, ◌<<<◌, ◌>>>◌}
use frog_os.Base.{if◌then◌else◌, Bool, Option, none, some}

-- `trap` is the intentional division by zero; `divided` is the quotient and what `*rem_p` is set to,
-- which is nothing for a null `rem_p`.
pub data Outcome : Type 0 where
  trap out_of_fuel : Outcome
  divided : ℕ → Option ℕ → Outcome

-- The first loop, on the denominator and the quotient's bit.
unfoldable pub justify : ℕ → ℕ → ℕ → Option (ℕ × ℕ)
justify zero den qbit = none
justify (suc fuel) den qbit =
    let rest = justify fuel (u64 (den <<< 1)) (u64 (qbit <<< 1)) in
    if ltb den (2 ^ 63) then rest else some (den, qbit)

-- The second loop, on the rest of the numerator, the denominator, the bit and the quotient.
unfoldable pub subtract : ℕ → ℕ → ℕ → ℕ → ℕ → Option (ℕ × ℕ)
subtract zero num den qbit quot = none
subtract (suc fuel) num den qbit quot =
    let num' = if leb den num then num - den else num in
    let quot' = if leb den num then u64 (quot + qbit) else quot in
    let rest = subtract fuel num' (den >>> 1) (qbit >>> 1) quot' in
    if qbit == 0 then some (quot, num) else rest

-- 64 rounds bring a bit of the denominator to the top, and 65 the quotient's bit to 0.
unfoldable pub udivmoddi4 : ℕ → ℕ → Bool → Outcome
udivmoddi4 num den rem_p = if den == 0 then trap else elim (justify 64 den 1) [
  | none ↦ out_of_fuel
  | some (den', qbit) ↦ elim (subtract 65 num den' qbit 0) [
    | none ↦ out_of_fuel
    | some (quot, rem) ↦ divided quot (if rem_p then some rem else none)
  ]
]

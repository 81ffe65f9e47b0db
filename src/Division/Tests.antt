-- ===== src/Division/Tests.antt =====
-- The division at concrete inputs.
use frog_os.Base.{ℕ, ◌+◌, ◌-◌, ◌*◌, ◌^◌, ◌<◌, ◌≡◌, ◌⊎◌, arith, true, some, none, if◌then◌else◌}
use frog_os.Division.{trap, divided, udivmoddi4}
use frog_os.Division.Quotient.{udivmoddi4_lem}

abbrev num : ℕ
num = 2 ^ 64 - 1

abbrev den : ℕ
den = 10

udivmoddi4_lem_example :
    ((den ≡ 0) × (udivmoddi4 num den true ≡ trap))
    ⊎ ((0 < den)
        × (q : ℕ) × (r : ℕ) × (udivmoddi4 num den true ≡ divided q (if true then some r else none))
        × (q * den + r ≡ num)
        × (r < den))
udivmoddi4_lem_example = udivmoddi4_lem num den true (omega arith) (omega arith)

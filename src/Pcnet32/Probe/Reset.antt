-- ===== src/Pcnet32/Probe/Reset.antt =====
-- The card's reset, while the timer ticks.
use frog_os.Base.{ℕ, ◌+◌, ◌≡◌, ◌≢◌, ◌⊎◌, refl, arith, inl, inr, u16, u32}
use frog_os.Base.{List, [], ◌∷◌, some, true, ◌==◌, Bool-cases}
use frog_os.Ports.{Ports}
use frog_os.Pcnet32.Registers.{wait_from, wait_tick, pcnet32_reset}

-- Some reading of the counter differs in its low 32 bits from the first.
abbrev Differs : ℕ → List ℕ → Type 0
Differs first [] = ⊥
Differs first (r ∷ rs) = (u32 r ≢ u32 first) ⊎ Differs first rs

abbrev pub Ticks : List ℕ → Type 0
Ticks [] = ⊥
Ticks (first ∷ rs) = Differs first rs

wait_from-ends : (first : ℕ) (rs : List ℕ) → Differs first rs → wait_from first rs ≡ true
unfolding wait_from
wait_from-ends first [] h = absurd h
wait_from-ends first (r ∷ rs) h = elim (Bool-cases (u32 r == u32 first)) [
  | inr e ↦ rw e refl
  | inl e ↦ elim h [
    | inl differs ↦ absurd (differs (ground arith))
    | inr later ↦ rw e (wait_from-ends first rs later)
  ]
]

wait_tick-ends : (readings : List ℕ) → Ticks readings → wait_tick readings ≡ true
unfolding wait_tick
wait_tick-ends [] h = absurd h
wait_tick-ends (first ∷ rs) h = wait_from-ends first rs h

-- The machine after the accesses of the reset.
abbrev pub after_reset : (ports : Ports) → ℕ → ports.State → ports.State
after_reset ports ioaddr σ =
    ports.outportl (u16 (ioaddr + 0x10)) 0
      (ports.inportw (u16 (ioaddr + 0x14)) (ports.inportw (u16 (ioaddr + 0x18)) σ).1).1

pub pcnet32_reset-ends :
    (ports : Ports) (ioaddr : ℕ) (readings : List ℕ) (σ : ports.State)
    → Ticks readings
    → pcnet32_reset ports ioaddr readings σ ≡ some (after_reset ports ioaddr σ)
unfolding pcnet32_reset
pcnet32_reset-ends ports ioaddr readings σ ticks = rw (wait_tick-ends readings ticks) refl

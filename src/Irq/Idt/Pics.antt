-- ===== src/Irq/Idt/Pics.antt =====
-- What `set_irqs` does to the interrupt controllers: their initialisation, and which lines are masked.
use frog_os.Base.{ℕ, suc, ◌^◌, ◌<◌, ◌≡◌, refl, ◌∙◌, arith, inl, inr, ◌==◌, if◌then◌else◌}
use frog_os.Base.{◌/◌, ◌%◌, leb, all_below, eq_below, Bool-cases}
use frog_os.Memory.{Mem}
use frog_os.Irq.{Bus, mask_port}
use frog_os.Irq.Idt.{set_irqs, write_all}
use frog_os.Irq.Masks.{HasPics, IsIdle, masked, line}

-- The bits of the last two writes.
last_bits :
    (j : ℕ) → j < 16 → (if leb 8 j then 0xff else 0xfb) / 2 ^ line j % 2 ≡ (if j == 2 then 0 else 1)
unfolding all_below
last_bits j h =
    eq_below 16 (λ k. (if leb 8 k then 0xff else 0xfb) / 2 ^ line k % 2)
      (λ k. if k == 2 then 0 else 1) j refl h

module _ (bus : Bus) (pics : HasPics bus) where
  open pics use {waits, begins, words, idle, other_waits, other_begins}

  -- How many words of its initialisation each controller waits for.
  Wait : ℕ → ℕ → bus.State → Type 0
  Wait a b σ = (waits 0x21 σ ≡ a) × (waits 0xa1 σ ≡ b)

  Wait-begins : (σ : bus.State) → Wait 3 3 (bus.outportb 0xa0 0x11 (bus.outportb 0x20 0x11 σ))
  unfolding Wait
  Wait-begins σ =
      let τ = bus.outportb 0x20 0x11 σ in
      (
        other_begins 0xa0 0x21 τ (inr refl) (inl refl) (omega arith) ∙ begins 0x20 σ (inl refl),
        begins 0xa0 τ (inr refl),
      )

  Wait-first : (a b v : ℕ) (σ : bus.State) → Wait (suc a) b σ → Wait a b (bus.outportb 0x21 v σ)
  unfolding Wait
  Wait-first a b v σ (first, second) = (
    words 0x21 v a σ (inl refl) first,
    other_waits 0x21 0xa1 v σ (inl refl) (inr refl) (omega arith) ∙ second,
  )

  Wait-second : (a b v : ℕ) (σ : bus.State) → Wait a (suc b) σ → Wait a b (bus.outportb 0xa1 v σ)
  unfolding Wait
  Wait-second a b v σ (first, second) = (
    other_waits 0xa1 0x21 v σ (inr refl) (inl refl) (omega arith) ∙ first,
    words 0xa1 v b σ (inr refl) second,
  )

  -- The writes up to the two ICW4.
  initialised : bus.State → bus.State
  initialised σ =
      let both = bus.outportb 0xa0 0x11 (bus.outportb 0x20 0x11 σ) in
      let offsets = bus.outportb 0xa1 0x28 (bus.outportb 0x21 0x20 both) in
      let cascade = bus.outportb 0xa1 0x02 (bus.outportb 0x21 0x04 offsets) in
      bus.outportb 0xa1 0x01 (bus.outportb 0x21 0x01 cascade)

  Wait-initialised : (σ : bus.State) → Wait 0 0 (initialised σ)
  unfolding initialised
  Wait-initialised σ =
      let round = λ (a v w : ℕ) (τ : bus.State) (h : Wait (suc a) (suc a) τ).
        Wait-second a a w (bus.outportb 0x21 v τ) (Wait-first a (suc a) v τ h) in
      round 0 0x01 0x01 _ (round 1 0x04 0x02 _ (round 2 0x20 0x28 _ (Wait-begins σ)))

  last_masks :
      (j : ℕ) (τ : bus.State)
      → Wait 0 0 τ
      → pics.mask (mask_port j) (bus.outportb 0xa1 0xff (bus.outportb 0x21 0xfb τ))
        ≡ (if leb 8 j then 0xff else 0xfb)
  unfolding mask_port Wait
  last_masks j τ (first, second) =
      let σ = bus.outportb 0x21 0xfb τ in
      let waits_still = other_waits 0x21 0xa1 0xfb τ (inl refl) (inr refl) (omega arith) in
      elim (Bool-cases (leb 8 j)) [
        | inl e ↦ rw e (pics.writes 0xa1 0xff σ (inr refl) (omega arith) (waits_still ∙ second))
        | inr e ↦ rw e (
            pics.other 0xa1 0x21 0xff σ (inr refl) (inl refl) (omega arith)
            ∙ pics.writes 0x21 0xfb τ (inl refl) (omega arith) first)
      ]

  last-IsIdle :
      (τ : bus.State)
      → Wait 0 0 τ
      → IsIdle bus pics (bus.outportb 0xa1 0xff (bus.outportb 0x21 0xfb τ))
  unfolding Wait
  last-IsIdle τ (first, second) q is_port =
      let σ = bus.outportb 0x21 0xfb τ in
      elim is_port [
        | inl e ↦ rw e (
            other_waits 0xa1 0x21 0xff σ (inr refl) (inl refl) (omega arith)
            ∙ idle 0x21 0xfb τ (inl refl) first)
        | inr e ↦ rw e (
            idle 0xa1 0xff σ (inr refl)
              (other_waits 0x21 0xa1 0xfb τ (inl refl) (inr refl) (omega arith) ∙ second))
      ]

  -- After `set_irqs`, the initialisation of both controllers is over.
  pub set_irqs-IsIdle :
      (idt : ℕ) (entry : ℕ → ℕ) (m : Mem) (σ : bus.State)
      → IsIdle bus pics (set_irqs bus idt entry m σ).1
  unfolding set_irqs write_all initialised
  set_irqs-IsIdle idt entry m σ = last-IsIdle (initialised σ) (Wait-initialised σ)

  -- After `set_irqs`, line 2, over which the second controller interrupts the first, is the only
  -- one of the 16 lines that is not masked.
  pub set_irqs_masks :
      (idt : ℕ) (entry : ℕ → ℕ) (m : Mem) (σ : bus.State) (j : ℕ)
      → j < 16
      → masked bus pics j (set_irqs bus idt entry m σ).1 ≡ (if j == 2 then 0 else 1)
  unfolding set_irqs write_all initialised
  set_irqs_masks idt entry m σ j h =
      rw (last_masks j (initialised σ) (Wait-initialised σ)) (last_bits j h)

-- ===== src/Startup/Cmain/Masks.antt =====
-- The interrupt masks after the start.
use frog_os.Base.{ℕ, ◌<◌, ◌≡◌, ◌∙◌, ap, arith, inl, inr, ltb, ◌/◌, ◌%◌, ◌^◌, ◌==◌}
use frog_os.Base.{if◌then◌else◌}
use frog_os.Irq.{Bus, irq_clear_mask, mask_port}
use frog_os.Irq.Masks.{HasPics, IsIdle, masked, line, mask_port-IsMaskPort, irq_clear_mask_lem}
use frog_os.Irq.Masks.{irq_clear_mask-IsIdle}
use frog_os.Startup.Cmain.Up.{HasPit}

module _ (bus : Bus) (pics : HasPics bus) (pit : HasPit bus pics) where
  -- The timer's writes, between the two lines that are unmasked.
  timer_masks :
      (j : ℕ) (σ : bus.State)
      → masked bus pics j
          (bus.outportb 0x40 0x2e (bus.outportb 0x40 0x9c (bus.outportb 0x42 0x34 σ)))
        ≡ masked bus pics j σ
  timer_masks j σ =
      let is_port = mask_port-IsMaskPort j in
      ap (λ (x : ℕ). x / 2 ^ line j % 2)
        (pit.timer 0x40 (mask_port j) 0x2e _ (omega arith) (omega arith) is_port
          ∙ pit.timer 0x40 (mask_port j) 0x9c _ (omega arith) (omega arith) is_port
          ∙ pit.timer 0x42 (mask_port j) 0x34 σ (omega arith) (omega arith) is_port)

  timer-IsIdle :
      (σ : bus.State)
      → IsIdle bus pics σ
      → IsIdle bus pics (bus.outportb 0x40 0x2e (bus.outportb 0x40 0x9c (bus.outportb 0x42 0x34 σ)))
  timer-IsIdle σ free q is_port =
      pit.timer_waits 0x40 q 0x2e _ (omega arith) (omega arith) is_port
      ∙ pit.timer_waits 0x40 q 0x9c _ (omega arith) (omega arith) is_port
      ∙ pit.timer_waits 0x42 q 0x34 σ (omega arith) (omega arith) is_port
      ∙ free q is_port

  clear_masks :
      (irq j : ℕ) (σ : bus.State)
      → IsIdle bus pics σ
      → irq < 16
      → j < 16
      → masked bus pics j (irq_clear_mask bus irq σ) ≡ (if j == irq then 0 else masked bus pics j σ)
  clear_masks irq j σ free lt h = elim (irq_clear_mask_lem bus pics irq j σ free h) [
    | inl (low, e) ↦ e
    | inr (high, e) ↦ absurd (omega arith)
  ]

  pub start_masks :
      (j : ℕ) (σ τ : bus.State)
      → j < 16
      → IsIdle bus pics σ
      → masked bus pics j σ ≡ (if j == 2 then 0 else 1)
      → τ
        ≡ irq_clear_mask bus 1 (
            bus.outportb 0x40 0x2e
              (bus.outportb 0x40 0x9c (bus.outportb 0x42 0x34 (irq_clear_mask bus 0 σ))))
      → masked bus pics j τ ≡ (if ltb j 3 then 0 else 1)
  start_masks j σ τ h free e at =
      let first = irq_clear_mask-IsIdle bus pics 0 σ (omega arith) free in
      let second = timer-IsIdle (irq_clear_mask bus 0 σ) first in
      rw
        (
          at,
          clear_masks 1 j _ second (omega arith) h,
          timer_masks j,
          clear_masks 0 j σ free (omega arith) h,
          e,
        )
        (ground arith)

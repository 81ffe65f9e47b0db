-- ===== src/Irq/Unmasking.antt =====
-- Installing and uninstalling a handler outside the controllers' initialisation: the mask of the line.
use frog_os.Base.{ℕ, ◌<◌, ◌≡◌, ◌∙◌, sym, arith, inl, inr}
use frog_os.Base.{List, get_or, some, false, ◌==◌, Bool-cases}
use frog_os.Base.{if◌then◌else◌, not, ◌&&◌}
use frog_os.Memory.{Mem}
use frog_os.Irq.{Bus, Irqs}
use frog_os.Irq.{install_irq_handler, remove_handler, uninstall_irq_handler}
use frog_os.Irq.Masks.{HasPics, IsIdle, masked, irq_set_mask_lem, irq_clear_mask_lem}
use frog_os.Base.{Option-cases}
use mathlib.Core.Path.{subst}
use mathlib.Core.Option.{some-injective}
use frog_os.Irq.Handlers.{absurd_none, uninstall_none, uninstall_eq, finish}

module _ (bus : Bus) (pics : HasPics bus) (s : Irqs bus) (irq h j : ℕ) (hj : j < 16)
    (free : IsIdle bus pics s.ports) where
  -- `install_irq_handler` on a line below 16 that has no handler unmasks the line; no other mask of
  -- the 16 lines changes, and none changes for a line that has a handler or for one from 16 on.
  pub install_mask :
      masked bus pics j (install_irq_handler bus irq h s).ports
      ≡ (if (get_or s.table irq 0 == 0) && (j == irq) then 0 else masked bus pics j s.ports)
  unfolding install_irq_handler
  install_mask = elim (Bool-cases (get_or s.table irq 0 == 0)) [
    | inl none_yet ↦ rw none_yet (elim (irq_clear_mask_lem bus pics irq j s.ports free hj) [
      | inl (hi, e) ↦ e
      | inr (hi, e) ↦ rw e (let other : (j == irq) ≡ false = ground arith in rw other)
    ])
    | inr some_left ↦ rw some_left
  ]

  finish_mask :
      (t : List ℕ) (m : Mem)
      → irq < 16
      → masked bus pics j (finish bus irq s t m).ports ≡ (
          if ((get_or t irq 0 == 0) && not (irq == 2)) && (j == irq)
          then 1
          else masked bus pics j s.ports)
  finish_mask t m hi = elim (Bool-cases ((get_or t irq 0 == 0) && not (irq == 2))) [
    | inl last ↦ rw last (irq_set_mask_lem bus pics irq j s.ports free hi hj)
    | inr more ↦ rw more
  ]

  -- When `uninstall_irq_handler` on a line below 16 ends: if it leaves the line no handler, and the
  -- line is not 2, it masks the line; no other mask of the 16 lines changes.
  pub uninstall_mask :
      (s' : Irqs bus)
      → irq < 16
      → uninstall_irq_handler bus irq h s ≡ some s'
      → masked bus pics j s'.ports ≡ (
          if ((get_or s'.table irq 0 == 0) && not (irq == 2)) && (j == irq)
          then 1
          else masked bus pics j s.ports)
  uninstall_mask s' hi e = elim (Option-cases (remove_handler bus irq h s)) [
    | inl lost ↦ absurd_none (sym (uninstall_none bus irq h s lost) ∙ e)
    | inr ((t, m), found) ↦
        let done = some-injective _ _ (sym (uninstall_eq bus irq h s t m found) ∙ e) in
        subst
          (λ x. masked bus pics j x.ports ≡ (
            if ((get_or x.table irq 0 == 0) && not (irq == 2)) && (j == irq)
            then 1
            else masked bus pics j s.ports))
          done (finish_mask t m hi)
  ]

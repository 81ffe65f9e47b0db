-- ===== src/Pci/Scan/Adds.antt =====
-- What a part of the enumeration adds to the table, and how that composes.
use frog_os.Base.{◌+◌, ◌≤◌, ◌<◌, ◌≡◌, ◌⊎◌, refl, ◌∙◌, sym, ap, arith, inl, inr}
use frog_os.Base.{List, [], ◌++◌, length, length-append, true, false}
use frog_os.Base.{Bool, if◌then◌else◌}
use mathlib.Core.List.{append_assoc, append-nil}
use frog_os.Ports.{Ports}
use frog_os.Pci.{PciDev}
use frog_os.Pci.Scan.{Scan, Outcome, done, overrun, and_then, max_devices}
use frog_os.Pci.Scan.Found.{View}
use frog_os.Pci.Scan.Steps.{HasConfig, Sees}

module _ (ports : Ports) (conf : HasConfig ports) (c : View) where
  open ports use {State}

  -- From `s` the entries `ys` are added, or there is no room for them all.
  abbrev pub Adds : Scan ports → List PciDev → Outcome ports → Type 0
  Adds s ys o =
      ((length s.entries + length ys ≤ max_devices)
        × (t : Scan ports) × (o ≡ done t)
        × (t.entries ≡ s.entries ++ ys)
        × Sees ports conf c t.machine)
      ⊎ ((max_devices < length s.entries + length ys) × (o ≡ overrun))

  -- A table with room, in a machine that shows the view.
  abbrev pub IsReady : Scan ports → Type 0
  IsReady s = (length s.entries ≤ max_devices) × Sees ports conf c s.machine

  pub Adds-nothing :
      (s : Scan ports) (σ : State)
      → length s.entries ≤ max_devices
      → Sees ports conf c σ
      → Adds s [] (done (record s { machine = σ }))
  Adds-nothing s σ h see =
      inl (omega arith, record s { machine = σ }, refl, sym (append-nil s.entries), see)

  pub Adds-and_then :
      (s : Scan ports) (ys zs : List PciDev) (o : Outcome ports) (k : Scan ports → Outcome ports)
      → Adds s ys o
      → ((t : Scan ports) → IsReady t → Adds t zs (k t))
      → Adds s (ys ++ zs) (and_then o k)
  Adds-and_then s ys zs o k (inr (full, e)) next =
      inr (omega (arith, length-append ys zs), rw e refl)
  Adds-and_then s ys zs o k (inl (room, t, e, es, see)) next =
      let size : length t.entries ≡ length s.entries + length ys =
        rw es (length-append s.entries ys) in
      elim (next t (omega arith, see)) [
        | inr (full, e') ↦ inr (omega (arith, length-append ys zs), rw e e')
        | inl (room', u, e', es', see') ↦ inl (
          omega (arith, length-append ys zs),
          u,
          rw e e',
          es' ∙ ap (λ xs. xs ++ zs) es ∙ append_assoc s.entries ys zs,
          see',
        )
      ]

  pub Adds-if :
      (t : Bool) (s : Scan ports) (ys : List PciDev) (o k : Outcome ports)
      → Adds s [] o
      → Adds s ys k
      → Adds s (if t then [] else ys) (if t then o else k)
  Adds-if true s ys o k a b = a
  Adds-if false s ys o k a b = b

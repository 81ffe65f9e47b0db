-- ===== src/Pci/Tests.antt =====
-- The enumeration's theorem at a concrete machine.
use frog_os.Base.{ℕ, ◌≡◌, refl, ◌==◌, if◌then◌else◌, Option, none, [], true, Bool-cases, inl, inr}
use frog_os.Ports.{Ports}
use frog_os.Pci.{PciDev, config_address}
use frog_os.Pci.Scan.{Scan, check_all_buses}
use frog_os.Pci.Scan.Found.{View, found_all, IsOrdered, is_bridge}
use frog_os.Pci.Scan.Steps.{HasConfig}
use frog_os.Pci.Scan.Adds.{Adds}
use frog_os.Pci.Scan.Function.{HasNoCard}
use frog_os.Pci.Scan.Refine.{check_all_buses-Adds}

-- One card, device 3 of bus 0; the other registers read as all ones.
abbrev one_card : View
one_card a = if a == 0x80001800 then 0x100e8086 else 0xffffffff

-- The state is the address last written to 0xCF8.
abbrev machine : Ports
machine = record {
  State = ℕ;
  inportb = λ p σ. (0, σ);
  inportw = λ p σ. (0, σ);
  inportl = λ p σ. (one_card σ, σ);
  outportb = λ p v σ. σ;
  outportw = λ p v σ. σ;
  outportl = λ p v σ. if p == 0xcf8 then v else σ;
}

machine-HasConfig : HasConfig machine
machine-HasConfig = record { config = λ σ. one_card; reads = λ a σ. refl; keeps = λ a b σ. refl }

-- A driver that never comes back.
abbrev driver : PciDev → ℕ → ℕ → ℕ → Option ℕ
driver dev io line σ = none

one_card-HasNoCard : HasNoCard one_card
one_card-HasNoCard b d f hb hd hf = elim (Bool-cases (config_address b d f 0 == 0x80001800)) [
  | inl card ↦ rw card refl
  | inr other ↦ rw other refl
]

one_card-IsOrdered : IsOrdered one_card
one_card-IsOrdered b d f hb hd hf bridge = absurd (no_bridge bridge)
  where
    no_bridge : is_bridge one_card b d f ≡ true → ⊥
    no_bridge e = elim (Bool-cases (config_address b d f 0xa == 0x80001800)) [
      | inl card ↦ cc (rw card at e)
      | inr other ↦ cc (rw other at e)
    ]

check_all_buses-Adds_example :
    let s : Scan machine = record { entries = []; machine = 0 } in
    Adds machine machine-HasConfig one_card s
      (found_all one_card)
      (check_all_buses machine driver s)
unfolding machine-HasConfig
check_all_buses-Adds_example =
    check_all_buses-Adds machine machine-HasConfig one_card driver one_card-HasNoCard 0
      one_card-IsOrdered (λ a h. refl)

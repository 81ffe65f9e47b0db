-- ===== src/Irq/Idt/Gates.antt =====
-- What `set_irqs` leaves of the table: its gates.
use frog_os.Base.{ℕ, zero, suc, ◌+◌, ◌*◌, ◌^◌, ◌≤◌, ◌<◌, ◌≡◌, ◌⊎◌, refl, ◌∙◌, arith, inl, inr}
use native.Mathlib.Nat.{add-zero}
use frog_os.Base.{bit_and_mask, ◌>>>◌}
use native.Mathlib.Decide.{ℕ_discrete as dec_eq, dec_lt}
use frog_os.Memory.{Mem, load16, memset, store8, store16}
use frog_os.Memory.Laws.{IsBytes, memset-inside, memset-outside, memset-IsBytes}
use frog_os.Irq.{Bus}
use frog_os.Irq.Idt.{idt_set_gate, set_gates, set_irqs}

-- A 32-bit interrupt gate of the kernel's code segment that leads to `func`.
pub record IsGate (m : Mem) (at func : ℕ) : Type 0 where
  pub base : load16 m at + 65536 * load16 m (at + 6) ≡ func
  pub selector : load16 m (at + 2) ≡ 0x08
  pub always0 : m (at + 4) ≡ 0
  pub flags : m (at + 5) ≡ 0x8e

module _ (idt : ℕ) (m : Mem) (num func : ℕ) where
  gate_outside :
      (sel flags x : ℕ)
      → (x < idt + 8 * num) ⊎ (idt + 8 * num + 8 ≤ x)
      → idt_set_gate idt m num func sel flags x ≡ m x
  unfolding idt_set_gate store16 store8
  gate_outside sel flags x h = ground arith

  gate-IsBytes : (sel flags : ℕ) → IsBytes m → IsBytes (idt_set_gate idt m num func sel flags)
  unfolding idt_set_gate store16 store8
  gate-IsBytes sel flags b x = ground (arith, b x)

  idt_set_gate-IsGate :
      func < 2 ^ 32 → IsGate (idt_set_gate idt m num func 0x08 0x8e) (idt + 8 * num) func
  unfolding idt_set_gate store16 store8 load16
  idt_set_gate-IsGate h = record {
    base = rw (bit_and_mask 16 func, bit_and_mask 16 (func >>> 16)) (ground arith);
    selector = ground arith;
    always0 = ground arith;
    flags = ground arith;
  }

pub IsGate-kept :
    (m m' : Mem) (at func : ℕ)
    → ((i : ℕ) → i < 8 → m' (at + i) ≡ m (at + i))
    → IsGate m at func
    → IsGate m' at func
unfolding load16
IsGate-kept m m' at func same g =
    let b₀ : m' at ≡ m at = rw (add-zero at) at (same 0 (omega arith)) in
    let b₁ = same 1 (omega arith) in
    let b₂ = same 2 (omega arith) in
    let b₃ : m' (at + 2 + 1) ≡ m (at + 2 + 1) = ground (arith, same 3 (omega arith)) in
    let b₇ : m' (at + 6 + 1) ≡ m (at + 6 + 1) = ground (arith, same 7 (omega arith)) in
    record {
      base = rw (b₀, b₁, same 6 (omega arith), b₇) g.base;
      selector = rw (b₂, b₃) g.selector;
      always0 = rw (same 4 (omega arith)) g.always0;
      flags = rw (same 5 (omega arith)) g.flags;
    }

module _ (idt : ℕ) (entry : ℕ → ℕ) (words : (i : ℕ) → entry i < 2 ^ 32) where
  set_gates-IsGate :
      (n j : ℕ) (m : Mem) → j < n → IsGate (set_gates idt entry n m) (idt + 8 * j) (entry j)
  unfolding set_gates
  set_gates-IsGate zero j m h = absurd (omega arith)
  set_gates-IsGate (suc n) j m h =
      let before = set_gates idt entry n m in
      elim (dec_eq j n) [
        | yes e ↦ rw e (idt_set_gate-IsGate idt before n (entry n) (words n))
        | no ne ↦
            IsGate-kept before _ (idt + 8 * j) (entry j)
              (λ i hi.
                gate_outside idt before n (entry n) 0x08 0x8e (idt + 8 * j + i) (omega arith))
              (set_gates-IsGate n j m (omega arith))
      ]

  pub set_gates-outside :
      (n x : ℕ) (m : Mem) → (x < idt) ⊎ (idt + 8 * n ≤ x) → set_gates idt entry n m x ≡ m x
  unfolding set_gates
  set_gates-outside zero x m h = refl
  set_gates-outside (suc n) x m h =
      gate_outside idt (set_gates idt entry n m) n (entry n) 0x08 0x8e x (omega arith)
      ∙ set_gates-outside n x m (omega arith)

  set_gates-IsBytes : (n : ℕ) (m : Mem) → IsBytes m → IsBytes (set_gates idt entry n m)
  unfolding set_gates
  set_gates-IsBytes zero m b = b
  set_gates-IsBytes (suc n) m b =
      gate-IsBytes idt (set_gates idt entry n m) n (entry n) 0x08 0x8e (set_gates-IsBytes n m b)

  pub set_irqs-IsBytes :
      (bus : Bus) (m : Mem) (σ : bus.State) → IsBytes m → IsBytes (set_irqs bus idt entry m σ).0
  unfolding set_irqs
  set_irqs-IsBytes bus m σ b =
      set_gates-IsBytes 49 (memset m idt 0 2048) (memset-IsBytes m idt 0 2048 b)

  pub set_irqs-outside :
      (bus : Bus) (m : Mem) (σ : bus.State) (x : ℕ)
      → (x < idt) ⊎ (idt + 2048 ≤ x)
      → (set_irqs bus idt entry m σ).0 x ≡ m x
  unfolding set_irqs
  set_irqs-outside bus m σ x out =
      set_gates-outside 49 x (memset m idt 0 2048) (omega arith) ∙ memset-outside m idt 0 2048 x out

  -- After `set_irqs`, with entry points that 32 bits hold, each of the first 49 gates leads to its
  -- entry point, and every byte of the table's other 207 gates is 0, whatever the memory held.
  pub set_irqs-IsGate :
      (bus : Bus) (m : Mem) (σ : bus.State) (n i : ℕ)
      → n < 256
      → i < 8
      → ((n < 49) × IsGate (set_irqs bus idt entry m σ).0 (idt + 8 * n) (entry n))
        ⊎ ((49 ≤ n) × ((set_irqs bus idt entry m σ).0 (idt + 8 * n + i) ≡ 0))
  unfolding set_irqs
  set_irqs-IsGate bus m σ n i hn hi = elim (dec_lt n 49) [
    | yes used ↦ inl (used, set_gates-IsGate 49 n (memset m idt 0 2048) used)
    | no free ↦ inr (
      omega arith,
      set_gates-outside 49 (idt + 8 * n + i) (memset m idt 0 2048) (inr (omega arith))
          ∙ memset-inside m idt 0 2048 (idt + 8 * n + i) (omega arith) (omega arith),
    )
  ]

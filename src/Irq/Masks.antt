-- ===== src/Irq/Masks.antt =====
-- Masking and unmasking a line of the two 8259 interrupt controllers.
use frog_os.Base.{ℕ, suc, ◌+◌, ◌-◌, ◌/◌, ◌%◌, ◌^◌, ◌≤◌, ◌<◌, ◌≡◌, ◌≢◌, ◌⊎◌, refl, arith, inl, inr}
use frog_os.Base.{Bool, true, false, ◌==◌, if◌then◌else◌, leb, u8, bit_and, bit_or, not32, ◌<<<◌}
use frog_os.Base.{all_below, at_all_below, ==_iff, Bool-cases, ap, ◌∙◌}
use native.Mathlib.Decide.{dec_lt}
use frog_os.Irq.{Bus, mask_port, mask_bit, irq_set_mask, irq_clear_mask}

abbrev pub IsMaskPort : ℕ → Type 0
IsMaskPort p = (p ≡ 0x21) ⊎ (p ≡ 0xa1)

-- What the 8259's data sheet says of its data port. The initialisation word 0x11 at the command port,
-- one below, makes the controller wait for three more words at the data port, ICW2 to ICW4. While it
-- waits for none, the data port reads back the interrupt mask, and a write sets the mask. The two
-- controllers are apart.
pub record HasPics (bus : Bus) : Type 0 where
  pub mask : ℕ → bus.State → ℕ
  pub mask_byte : (p : ℕ) (σ : bus.State) → mask p σ < 256
  pub waits : ℕ → bus.State → ℕ
  pub begins :
      (c : ℕ) (σ : bus.State) → IsMaskPort (c + 1) → waits (c + 1) (bus.outportb c 0x11 σ) ≡ 3
  pub words :
      (p v n : ℕ) (σ : bus.State)
      → IsMaskPort p
      → waits p σ ≡ suc n
      → waits p (bus.outportb p v σ) ≡ n
  pub idle :
      (p v : ℕ) (σ : bus.State) → IsMaskPort p → waits p σ ≡ 0 → waits p (bus.outportb p v σ) ≡ 0
  pub reads :
      (p : ℕ) (σ : bus.State) → IsMaskPort p → waits p σ ≡ 0 → bus.inportb p σ ≡ (mask p σ, σ)
  pub writes :
      (p v : ℕ) (σ : bus.State)
      → IsMaskPort p
      → v < 256
      → waits p σ ≡ 0
      → mask p (bus.outportb p v σ) ≡ v
  pub other :
      (p q v : ℕ) (σ : bus.State)
      → IsMaskPort p
      → IsMaskPort q
      → p ≢ q
      → mask q (bus.outportb p v σ) ≡ mask q σ
  pub other_waits :
      (p q v : ℕ) (σ : bus.State)
      → IsMaskPort p
      → IsMaskPort q
      → p ≢ q
      → waits q (bus.outportb p v σ) ≡ waits q σ
  pub other_begins :
      (c q : ℕ) (σ : bus.State)
      → IsMaskPort (c + 1)
      → IsMaskPort q
      → c + 1 ≢ q
      → waits q (bus.outportb c 0x11 σ) ≡ waits q σ

abbrev bit : ℕ → ℕ → ℕ
bit v j = v / 2 ^ j % 2

-- Setting and clearing one bit of a byte, by evaluation.
abbrev set_check : ℕ → ℕ → ℕ → Bool
set_check v i j = bit (u8 (bit_or v (1 <<< i))) j == (if j == i then 1 else bit v j)

abbrev clear_check : ℕ → ℕ → ℕ → Bool
clear_check v i j = bit (u8 (bit_and v (not32 (1 <<< i)))) j == (if j == i then 0 else bit v j)

abbrev Table : (ℕ → ℕ → ℕ → Bool) → Type 0
Table f = all_below 256 (λ v. all_below 8 (λ i. all_below 8 (λ j. f v i j))) ≡ true

set-Table : Table set_check
unfolding all_below
set-Table = refl

clear-Table : Table clear_check
unfolding all_below
clear-Table = refl

at-Table : (f : ℕ → ℕ → ℕ → Bool) (v i j : ℕ) → Table f → v < 256 → i < 8 → j < 8 → f v i j ≡ true
at-Table f v i j t hv hi hj =
    at_all_below 8 (λ k. f v i k) j
      (at_all_below 8 (λ n. all_below 8 (λ k. f v n k)) i
        (at_all_below 256 (λ w. all_below 8 (λ n. all_below 8 (λ k. f w n k))) v t hv) hi)
      hj

-- The bit of a line in its controller's mask.
abbrev pub line : ℕ → ℕ
line irq = if leb 8 irq then irq - 8 else irq

pub mask_port-IsMaskPort : (irq : ℕ) → IsMaskPort (mask_port irq)
unfolding mask_port
mask_port-IsMaskPort irq = ground arith

module _ (bus : Bus) (pics : HasPics bus) where
  open pics use {mask, mask_byte, waits, idle, reads, writes, other, other_waits}

  -- Neither controller is in its initialisation.
  abbrev pub IsIdle : bus.State → Type 0
  IsIdle σ = (q : ℕ) → IsMaskPort q → waits q σ ≡ 0

  -- Whether the controllers hold a line back.
  abbrev pub masked : ℕ → bus.State → ℕ
  masked irq σ = bit (mask (mask_port irq) σ) (line irq)

  -- Writing a byte to a line's mask port, seen from another line.
  masked-write :
      (irq j v : ℕ) (σ : bus.State)
      → IsIdle σ
      → v < 256
      → masked j (bus.outportb (mask_port irq) v σ)
        ≡ (if mask_port j == mask_port irq then bit v (line j) else masked j σ)
  masked-write irq j v σ free h = elim (Bool-cases (mask_port j == mask_port irq)) [
    | inl e ↦
        let same : mask_port j ≡ mask_port irq = (==_iff _ _).0 e in
        rw (
          e,
          same,
          writes (mask_port irq) v σ (mask_port-IsMaskPort irq) h
              (free _ (mask_port-IsMaskPort irq)),
        )
    | inr e ↦ rw (
      e,
      other (mask_port irq) (mask_port j) v σ (mask_port-IsMaskPort irq) (mask_port-IsMaskPort j)
          (ground arith),
    )
  ]

  set_eq :
      (irq : ℕ) (σ : bus.State)
      → IsIdle σ
      → irq_set_mask bus irq σ
        ≡ bus.outportb (mask_port irq) (u8 (bit_or (mask (mask_port irq) σ) (mask_bit irq))) σ
  unfolding irq_set_mask
  set_eq irq σ free =
      ap (λ r. bus.outportb (mask_port irq) (u8 (bit_or r.0 (mask_bit irq))) r.1)
        (reads (mask_port irq) σ (mask_port-IsMaskPort irq) (free _ (mask_port-IsMaskPort irq)))

  clear_eq :
      (irq : ℕ) (σ : bus.State)
      → IsIdle σ
      → irq < 16
      → irq_clear_mask bus irq σ
        ≡ bus.outportb
            (mask_port irq)
            (u8 (bit_and (mask (mask_port irq) σ) (not32 (mask_bit irq))))
            σ
  unfolding irq_clear_mask
  clear_eq irq σ free h =
      let small : leb 16 irq ≡ false = ground arith in
      rw (irq_clear_mask, small)
        (ap (λ r. bus.outportb (mask_port irq) (u8 (bit_and r.0 (not32 (mask_bit irq)))) r.1)
          (reads (mask_port irq) σ (mask_port-IsMaskPort irq) (free _ (mask_port-IsMaskPort irq))))

  -- A written byte that differs in one line's bit, seen from any line.
  one_line :
      (irq j w n : ℕ) (σ : bus.State)
      → irq < 16
      → j < 16
      → bit w (line j) ≡ (if line j == line irq then n else bit (mask (mask_port irq) σ) (line j))
      → (if mask_port j == mask_port irq then bit w (line j) else masked j σ)
        ≡ (if j == irq then n else masked j σ)
  unfolding mask_port
  one_line irq j w n σ hi hj e = ground arith

  -- Writing to a mask port begins no initialisation.
  write-IsIdle : (irq v : ℕ) (σ : bus.State) → IsIdle σ → IsIdle (bus.outportb (mask_port irq) v σ)
  write-IsIdle irq v σ free q is_port = elim (Bool-cases (q == mask_port irq)) [
    | inl e ↦
        let same : q ≡ mask_port irq = (==_iff _ _).0 e in
        rw same
          (idle (mask_port irq) v σ (mask_port-IsMaskPort irq) (free _ (mask_port-IsMaskPort irq)))
    | inr e ↦
        other_waits (mask_port irq) q v σ (mask_port-IsMaskPort irq) is_port (ground arith)
        ∙ free q is_port
  ]

  pub irq_clear_mask-IsIdle :
      (irq : ℕ) (σ : bus.State) → irq < 16 → IsIdle σ → IsIdle (irq_clear_mask bus irq σ)
  irq_clear_mask-IsIdle irq σ h free = rw (clear_eq irq σ free h) (write-IsIdle irq _ σ free)

  -- Outside an initialisation, masking one of the 16 lines masks it and leaves the others as they are.
  pub irq_set_mask_lem :
      (irq j : ℕ) (σ : bus.State)
      → IsIdle σ
      → irq < 16
      → j < 16
      → masked j (irq_set_mask bus irq σ) ≡ (if j == irq then 1 else masked j σ)
  irq_set_mask_lem irq j σ free hi hj =
      let v = mask (mask_port irq) σ in
      let w = u8 (bit_or v (mask_bit irq)) in
      let t =
        at-Table set_check v (line irq) (line j) set-Table (mask_byte (mask_port irq) σ)
          (ground arith) (ground arith) in
      rw (set_eq irq σ free) (
        masked-write irq j w σ free (omega arith)
        ∙ one_line irq j w 1 σ hi hj (unfold mask_bit in (==_iff _ _).0 t))

  -- Outside an initialisation, unmasking one of the 16 lines unmasks it and leaves the others as they are; any other number
  -- changes nothing.
  pub irq_clear_mask_lem :
      (irq j : ℕ) (σ : bus.State)
      → IsIdle σ
      → j < 16
      → ((irq < 16) × (masked j (irq_clear_mask bus irq σ) ≡ (if j == irq then 0 else masked j σ)))
        ⊎ ((16 ≤ irq) × (irq_clear_mask bus irq σ ≡ σ))
  irq_clear_mask_lem irq j σ free hj = elim (dec_lt irq 16) [
    | yes hi ↦
        let v = mask (mask_port irq) σ in
        let w = u8 (bit_and v (not32 (mask_bit irq))) in
        let t =
          at-Table clear_check v (line irq) (line j) clear-Table (mask_byte (mask_port irq) σ)
            (ground arith) (ground arith) in
        inl (
          hi,
          rw (clear_eq irq σ free hi) (
              masked-write irq j w σ free (omega arith)
              ∙ one_line irq j w 0 σ hi hj (unfold mask_bit in (==_iff _ _).0 t)),
        )
    | no hi ↦ inr (omega arith, unfold irq_clear_mask in ground arith)
  ]

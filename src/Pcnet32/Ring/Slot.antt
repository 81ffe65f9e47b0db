-- ===== src/Pcnet32/Ring/Slot.antt =====
-- Places in a ring of `n` descriptors.
use frog_os.Base.{ℕ, ◌+◌, ◌-◌, ◌%◌, ◌^◌, ◌≤◌, ◌<◌, ◌≡◌, ◌≢◌, ◌∙◌, ap, arith, u16}
use frog_os.Base.{Bool-cases, leb, ◌==◌, if◌then◌else◌, inl, inr}
use native.Mathlib.Nat.{mod-eq_of_lt, mod-eq-sub-mod, mod-add-mod, mod-lt}

-- The wrap-around of the source's `++p; if(p>=n) p=0`.
pub next_slot :
    (p n : ℕ) → p < n → n < 2 ^ 16 → (if leb n (u16 (p + 1)) then 0 else u16 (p + 1)) ≡ (p + 1) % n
next_slot p n h k = elim (Bool-cases (p + 1 == n)) [
  | inl last ↦ grind (arith, mod-eq_of_lt)
  | inr more ↦ grind (arith, mod-eq_of_lt)
]

pub slot-lt : (p i n : ℕ) → p < n → (p + i) % n < n
slot-lt p i n h = mod-lt (p + i) (omega arith)

pub slot_zero : (p n : ℕ) → p < n → (p + 0) % n ≡ p
slot_zero p n h = grind (arith, mod-eq_of_lt)

pub slot_full : (p n : ℕ) → p < n → (p + n) % n ≡ p
slot_full p n h = mod-eq-sub-mod (omega arith) ∙ grind (arith, mod-eq_of_lt)

pub slot_next : (p i n : ℕ) → ((p + 1) % n + i) % n ≡ (p + (i + 1)) % n
slot_next p i n = mod-add-mod (p + 1) n i ∙ ap (λ (x : ℕ). x % n) (omega arith)

-- Fewer than `n` steps on is another place.
pub slot_ne : (p i n : ℕ) → p < n → 0 < i → i < n → (p + i) % n ≢ p
slot_ne p i n h pos lt e = elim (Bool-cases (leb n (p + i))) [
  | inr inside ↦
      let same : (p + i) % n ≡ p + i = mod-eq_of_lt (ground arith) in absurd (omega arith)
  | inl past ↦
      let le : n ≤ p + i = ground arith in
      let same : (p + i) % n ≡ p + i - n = mod-eq-sub-mod le ∙ mod-eq_of_lt (omega arith) in
      absurd (omega arith)
]

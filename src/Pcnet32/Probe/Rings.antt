-- ===== src/Pcnet32/Probe/Rings.antt =====
-- The rings that the driver starts with.
use frog_os.Base.{ℕ, zero, suc, ◌+◌, ◌*◌, ◌^◌, ◌≤◌, ◌<◌, ◌≡◌, ◌⊎◌, refl, ◌∙◌, arith, u16}
use frog_os.Base.{Bool, true, false, Bool-cases, ◌==◌, if◌then◌else◌, inl, inr}
use frog_os.Memory.{Mem}
use frog_os.Memory.Laws.{store8_self, store8-outside, store16-outside, store32-outside}
use frog_os.Memory.Laws.{memset-inside, memset-outside, IsBytes, memset-IsBytes}
use frog_os.Memory.Laws.{store8-IsBytes, store16-IsBytes, store32-IsBytes}
use frog_os.Pcnet32.{Card}
use frog_os.Pcnet32.Ring.{driver_owns, initialize_de}
use frog_os.Pcnet32.Probe.{initialize_all}

-- The descriptors of a ring, the transmit one for true.
abbrev pub descriptors : Card → Bool → ℕ
descriptors c is_tx = if is_tx then c.tdes else c.rdes

initialize_de-outside :
    (c : Card) (i : ℕ) (is_tx : Bool) (m : Mem) (x : ℕ)
    → (x < descriptors c is_tx + i * 16) ⊎ (descriptors c is_tx + i * 16 + 16 ≤ x)
    → initialize_de c i is_tx m x ≡ m x
unfolding initialize_de
initialize_de-outside c i true m x out =
    store16-outside _ (c.tdes + i * 16 + 4) _ x (omega arith)
    ∙ store32-outside _ (c.tdes + i * 16) _ x (omega arith)
    ∙ memset-outside m (c.tdes + i * 16) 0 16 x (omega arith)
initialize_de-outside c i false m x out =
    store8-outside _ (c.rdes + i * 16 + 7) 0x80 x (λ e. absurd (omega arith))
    ∙ store16-outside _ (c.rdes + i * 16 + 4) _ x (omega arith)
    ∙ store32-outside _ (c.rdes + i * 16) _ x (omega arith)
    ∙ memset-outside m (c.rdes + i * 16) 0 16 x (omega arith)

-- The card owns a new receive descriptor, the driver a new transmit descriptor.
initialize_de-flags :
    (c : Card) (i : ℕ) (is_tx : Bool) (m : Mem)
    → initialize_de c i is_tx m (descriptors c is_tx + i * 16 + 7) ≡ (if is_tx then 0 else 0x80)
unfolding initialize_de
initialize_de-flags c i true m =
    store16-outside _ (c.tdes + i * 16 + 4) _ (c.tdes + i * 16 + 7) (omega arith)
    ∙ store32-outside _ (c.tdes + i * 16) _ (c.tdes + i * 16 + 7) (omega arith)
    ∙ memset-inside m (c.tdes + i * 16) 0 16 (c.tdes + i * 16 + 7) (omega arith) (omega arith)
initialize_de-flags c i false m = store8_self _ (c.rdes + i * 16 + 7) 0x80 (omega arith)

pub initialize_all-outside :
    (c : Card) (is_tx : Bool) (n i : ℕ) (m : Mem) (x : ℕ)
    → i + n < 2 ^ 16
    → (x < descriptors c is_tx + i * 16) ⊎ (descriptors c is_tx + (i + n) * 16 ≤ x)
    → initialize_all n i is_tx c m x ≡ m x
unfolding initialize_all
initialize_all-outside c is_tx zero i m x h out = refl
initialize_all-outside c is_tx (suc n) i m x h out =
    let next : u16 (i + 1) ≡ i + 1 = omega arith in
    rw next (
      initialize_all-outside c is_tx n (i + 1) (initialize_de c i is_tx m) x (omega arith)
        (omega arith))
    ∙ initialize_de-outside c i is_tx m x (omega arith)

initialize_de-IsBytes :
    (c : Card) (i : ℕ) (is_tx : Bool) (m : Mem) → IsBytes m → IsBytes (initialize_de c i is_tx m)
unfolding initialize_de
initialize_de-IsBytes c i true m b =
    store16-IsBytes _ _ _ (store32-IsBytes _ _ _ (memset-IsBytes m _ _ _ b))
initialize_de-IsBytes c i false m b =
    store8-IsBytes _ _ _ (store16-IsBytes _ _ _ (store32-IsBytes _ _ _ (memset-IsBytes m _ _ _ b)))

pub initialize_all-IsBytes :
    (c : Card) (is_tx : Bool) (n i : ℕ) (m : Mem)
    → IsBytes m
    → IsBytes (initialize_all n i is_tx c m)
unfolding initialize_all
initialize_all-IsBytes c is_tx zero i m b = b
initialize_all-IsBytes c is_tx (suc n) i m b =
    initialize_all-IsBytes c is_tx n (u16 (i + 1)) (initialize_de c i is_tx m)
      (initialize_de-IsBytes c i is_tx m b)

flags-owner :
    (is_tx : Bool) (m : Mem) (des i : ℕ)
    → m (des + i * 16 + 7) ≡ (if is_tx then 0 else 0x80)
    → driver_owns m des i ≡ is_tx
unfolding driver_owns
flags-owner true m des i e =
    let at : des + (16 * i + 7) ≡ des + i * 16 + 7 = omega arith in rw (at, e) refl
flags-owner false m des i e =
    let at : des + (16 * i + 7) ≡ des + i * 16 + 7 = omega arith in rw (at, e) refl

-- The loop over fewer than 2 ^ 16 descriptors, from the descriptor `i` on, leaves each of them, in the
-- receive ring, to the card, and in the transmit ring to the driver.
pub initialize_all-owner :
    (c : Card) (is_tx : Bool) (n i : ℕ) (m : Mem) (j : ℕ)
    → i + n < 2 ^ 16
    → i ≤ j
    → j < i + n
    → driver_owns (initialize_all n i is_tx c m) (descriptors c is_tx) j ≡ is_tx
unfolding initialize_all
initialize_all-owner c is_tx zero i m j h lo hi = absurd (omega arith)
initialize_all-owner c is_tx (suc n) i m j h lo hi =
    let next : u16 (i + 1) ≡ i + 1 = omega arith in
    let m' = initialize_de c i is_tx m in
    elim (Bool-cases (j == i)) [
      | inl here ↦
          let same : j ≡ i = ground arith in
          let flags =
            initialize_all-outside c is_tx n (i + 1) m' (descriptors c is_tx + i * 16 + 7)
              (omega arith) (inl (omega arith)) in
          rw (same, next)
            (flags-owner is_tx (initialize_all n (i + 1) is_tx c m') (descriptors c is_tx) i
              (flags ∙ initialize_de-flags c i is_tx m))
      | inr later ↦
          rw next
            (initialize_all-owner c is_tx n (i + 1) m' j (omega arith) (ground arith) (omega arith))
    ]

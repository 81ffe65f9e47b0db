-- ===== src/Keyboard/Decoder/Effect.antt =====
-- What one scan code can do to the ring and to the shift state.
use frog_os.Base.{ℕ, ◌<◌, ◌≡◌, refl, Bool, true, false, arith, inl, inr, ◌⊎◌}
use frog_os.Base.{bit_and, bit_or, bit_xor, not32, ◌==◌, Bool-cases, all_below}
use frog_os.Base.{if◌then◌else◌, at_all_below, ltb, ltb→lt}
use frog_os.Keyboard.Keys
use frog_os.Keyboard.Decoder.{Kbd, enqueue_key, extended, make, break}

-- A branch queues one key code, sets the shift state to one of the 16, or does neither.
pub data Effect (k : Kbd) : Kbd → Type 0 where
  idle : Effect k k
  key : (d : ℕ) → 0 < d → d < 256 → Effect k (enqueue_key k d)
  shift : (s : ℕ) → s < 16 → Effect k (record k { shiftstate = s })

if-Effect : {k x y : Kbd} (b : Bool) → Effect k x → Effect k y → Effect k (if b then x else y)
if-Effect true p q = p
if-Effect false p q = q

-- A change of the shift state that keeps its four bits.
shift_by :
    (k : Kbd) (f : ℕ → ℕ)
    → all_below 16 (λ x. ltb (f x) 16) ≡ true
    → k.shiftstate < 16
    → Effect k (record k { shiftstate = f k.shiftstate })
shift_by k f table h =
    shift (f k.shiftstate)
      (ltb→lt (f k.shiftstate) 16 (at_all_below 16 (λ x. ltb (f x) 16) k.shiftstate table h))

module _ (k : Kbd) (h : k.shiftstate < 16) where
  press :
      (bit : ℕ)
      → all_below 16 (λ x. ltb (bit_or x bit) 16) ≡ true
      → Effect k (record k { shiftstate = bit_or k.shiftstate bit })
  press bit table = shift_by k (λ s. bit_or s bit) table h

  release :
      (bit : ℕ)
      → all_below 16 (λ x. ltb (bit_and x (not32 bit)) 16) ≡ true
      → Effect k (record k { shiftstate = bit_and k.shiftstate (not32 bit) })
  release bit table = shift_by k (λ s. bit_and s (not32 bit)) table h

  toggle :
      (bit : ℕ)
      → all_below 16 (λ x. ltb (bit_xor x bit) 16) ≡ true
      → Effect k (record k { shiftstate = bit_xor k.shiftstate bit })
  toggle bit table = shift_by k (λ s. bit_xor s bit) table h

  pub extended-Effect : (c : ℕ) → Effect k (extended c k)
  unfolding extended all_below
  extended-Effect c = if-Effect _ (press Keys.kbd_ctrl refl) (
      if-Effect _ (press Keys.kbd_alt refl) (
        if-Effect _ (key Keys.key_home (omega arith) (omega arith)) (
          if-Effect _ (key Keys.key_up (omega arith) (omega arith)) (
            if-Effect _ (key Keys.key_pgup (omega arith) (omega arith)) (
              if-Effect _ (key Keys.key_left (omega arith) (omega arith)) (
                if-Effect _ (key Keys.key_right (omega arith) (omega arith)) (
                  if-Effect _ (key Keys.key_end (omega arith) (omega arith)) (
                    if-Effect _ (key Keys.key_down (omega arith) (omega arith)) (
                      if-Effect _ (key Keys.key_pgdown (omega arith) (omega arith)) (
                        if-Effect _ (toggle Keys.kbd_insert refl) (
                          if-Effect _ (key Keys.key_delete (omega arith) (omega arith)) (
                            if-Effect _ (key Keys.key_gui (omega arith) (omega arith)) (
                              if-Effect _ (key Keys.key_rghtgui (omega arith) (omega arith)) (
                                if-Effect _ (key Keys.key_apps (omega arith) (omega arith)) (
                                  if-Effect _ (release Keys.kbd_ctrl refl)
                                    (if-Effect _ (release Keys.kbd_alt refl) idle))))))))))))))))

  pub make-Effect : (d : ℕ) → d < 256 → Effect k (make d k)
  unfolding make all_below
  make-Effect d small = if-Effect _ (press Keys.kbd_ctrl refl) (
      if-Effect _ (toggle Keys.kbd_shift refl) (
        if-Effect _ (press Keys.kbd_shift refl)
          (if-Effect _ (press Keys.kbd_alt refl) (queue_or_idle (Bool-cases (d == 0))))))
    where
      queue_or_idle :
          ((d == 0) ≡ true) ⊎ ((d == 0) ≡ false) → Effect k (if d == 0 then k else enqueue_key k d)
      queue_or_idle (inl e) = rw e idle
      queue_or_idle (inr e) = rw e (key d (ground arith) small)

  pub break-Effect : (d : ℕ) → Effect k (break d k)
  unfolding break all_below
  break-Effect d =
      if-Effect _ (release Keys.kbd_ctrl refl)
        (if-Effect _ (release Keys.kbd_shift refl) (if-Effect _ (release Keys.kbd_alt refl) idle))

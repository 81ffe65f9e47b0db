-- ===== src/Keyboard/Decoder/Invariant.antt =====
-- The decoder stays within its nine states, and each scan code ends in `done`, or past the tables.
use frog_os.Base.{ℕ, zero, suc, ◌+◌, ◌*◌, ◌/◌, ◌%◌, ◌≤◌, ◌<◌, ◌≡◌, ◌≢◌, ◌⊎◌, refl}
use frog_os.Base.{Bool, true, false, ◌&&◌, arith, inl, inr, none, some, List, [], ◌∷◌}
use frog_os.Base.{bit_and, bit_or, ◌==◌, Bool-cases, all_below, eq_below, length, get_elem?}
use frog_os.Base.{bit_or_fields, bit_and_mask, if◌then◌else◌, u32, ◌<<<◌}
use frog_os.Keyboard.Keys
use frog_os.Keyboard.Scancodes.{scancodes}
use frog_os.Keyboard.Fifo
use frog_os.Keyboard.Queue.Refine.{IsValid, contents, enqueue-IsValid, enqueue_refines}
use frog_os.Keyboard.Decoder.{Kbd, Outcome, done, overrun, goto, enqueue_key, extended}
use frog_os.Keyboard.Decoder.{make, break, make_table, plain, is_prefix, ladder}
use frog_os.Keyboard.Decoder.Effect.{
  Effect, idle, key, shift, extended-Effect, make-Effect, break-Effect,
}

abbrev pub IsState : ℕ → Type 0
IsState s =
    (s ≡ 0)
    ⊎ (s ≡ 0xe0)
    ⊎ (s ≡ 0xe1)
    ⊎ (s ≡ 0x1d)
    ⊎ (s ≡ 0x45)
    ⊎ (s ≡ 0x2e1)
    ⊎ (s ≡ 0x9d)
    ⊎ (s ≡ 0xe02a)
    ⊎ (s ≡ 0x2ae0)

pub record IsWell (k : Kbd) : Type 0 where
  pub ring : IsValid k.ring
  pub bits : k.shiftstate < 16
  pub state : IsState k.state

-- At most one key is queued, a code from 1 to 255 below the shift state before.
abbrev pub AtMostOneKey : Kbd → Kbd → Type 0
AtMostOneKey k k' =
    (contents k'.ring ≡ contents k.ring)
    ⊎ ((d : ℕ) × (0 < d)
        × (d < 256)
        × (contents k'.ring ≡ Fifo.enqueue (contents k.ring) (k.shiftstate * 256 + d)))

-- The outcome is `done`, by an effect and a next state.
abbrev pub Next : Kbd → Outcome → Type 0
Next k o = (k' : Kbd) × (s : ℕ) × Effect k k' × IsState s × (o ≡ done (goto k' s))

-- A key's entry is the shift state above its code.
key_entry : (s d : ℕ) → s < 16 → d < 256 → bit_or (u32 (s <<< 8)) d ≡ s * 256 + d
key_entry s d hs hd = let e : u32 (s <<< 8) ≡ s <<< 8 = omega arith in rw e (bit_or_fields 8 s d hd)

pub Effect-keeps :
    {k k' : Kbd} (s : ℕ)
    → IsValid k.ring
    → k.shiftstate < 16
    → IsState s
    → Effect k k'
    → IsWell (goto k' s) × AtMostOneKey k (goto k' s)
unfolding enqueue_key
Effect-keeps s v h st idle = (record { ring = v; bits = h; state = st }, inl refl)
Effect-keeps {k} s v h st (key d lo hi) = (
  record { ring = enqueue-IsValid k.ring _ v; bits = h; state = st },
  inr (d, lo, hi, rw (key_entry k.shiftstate d h hi) (enqueue_refines k.ring _ v)),
)
Effect-keeps s v h st (shift t ht) = (record { ring = v; bits = ht; state = st }, inl refl)

get_elem?-some : (xs : List ℕ) (i : ℕ) → i < length xs → (d : ℕ) × (get_elem? xs i ≡ some d)
get_elem?-some [] i h = absurd (omega arith)
get_elem?-some (x ∷ xs) zero h = (x, refl)
get_elem?-some (x ∷ xs) (suc i) h = get_elem?-some xs i (omega arith)

get_elem?-none : (xs : List ℕ) (i : ℕ) → length xs ≤ i → get_elem? xs i ≡ none
get_elem?-none [] i h = refl
get_elem?-none (x ∷ xs) zero h = absurd (omega arith)
get_elem?-none (x ∷ xs) (suc i) h = get_elem?-none xs i (omega arith)

-- Every entry of the tables is a byte.
abbrev AllBytes : List ℕ → Type 0
AllBytes [] = Unit
AllBytes (x ∷ xs) = (x < 256) × AllBytes xs

get_elem?-byte : (xs : List ℕ) (i d : ℕ) → AllBytes xs → get_elem? xs i ≡ some d → d < 256
get_elem?-byte [] i d b e = cc
get_elem?-byte (x ∷ xs) zero d b e = ground (arith, b.0)
get_elem?-byte (x ∷ xs) (suc i) d b e = get_elem?-byte xs i d b.1 e

pub high_bit : (c : ℕ) → c < 256 → bit_and c 0x80 ≡ c / 128 * 128
unfolding all_below
high_bit c h = eq_below 256 (λ x. bit_and x 0x80) (λ x. x / 128 * 128) c refl h

pub make_table-length : (k : Kbd) → length (make_table k) ≡ 0x59
unfolding make_table
make_table-length k = ground arith

make_table-AllBytes : (k : Kbd) → AllBytes (make_table k)
unfolding make_table
make_table-AllBytes k = elim (Bool-cases (bit_and k.shiftstate Keys.kbd_shift == 0)) [
  | inl e ↦ rw e (omega arith)
  | inr e ↦ rw e (omega arith)
]

plain-Next : (c : ℕ) (k : Kbd) → k.shiftstate < 16 → c < 256 → c % 128 < 0x59 → Next k (plain c k)
unfolding plain
plain-Next c k bits small inside = elim (Bool-cases (bit_and c 0x80 == 0)) [
  | inl e ↦
      let low : c < 0x59 = ground (arith, high_bit c small) in
      let (d, r) = get_elem?-some (make_table k) c (omega (arith, make_table-length k)) in
      (
        make d k,
        0,
        make-Effect k bits d (get_elem?-byte (make_table k) c d (make_table-AllBytes k) r),
        inl refl,
        rw (e, r),
      )
  | inr e ↦
      let (d, r) = get_elem?-some scancodes (bit_and c 0x7f) (rw (bit_and_mask 7 c) inside) in
      (break d k, 0, break-Effect k bits d, inl refl, rw (e, r))
]

pub plain-overrun : (c : ℕ) (k : Kbd) → c < 256 → 0x59 ≤ c % 128 → plain c k ≡ overrun
unfolding plain
plain-overrun c k small past = elim (Bool-cases (bit_and c 0x80 == 0)) [
  | inl e ↦
      let low : 0x59 ≤ c = omega arith in
      let r = get_elem?-none (make_table k) c (omega (arith, make_table-length k)) in rw (e, r)
  | inr e ↦
      let r = get_elem?-none scancodes (bit_and c 0x7f) (rw (bit_and_mask 7 c) past) in rw (e, r)
]

-- Each branch but the last: how it ends, with the state that it goes to.
if-Next :
    {k : Kbd} {x y : Outcome} (b : Bool)
    → (b ≡ true → Next k x)
    → (b ≡ false → Next k y)
    → Next k (if b then x else y)
if-Next true p q = p refl
if-Next false p q = q refl

module _ (c : ℕ) (k : Kbd) (again : Outcome) (bits : k.shiftstate < 16) (small : c < 256) where
  pub ladder-Next :
      (k.state ≡ 0xe0) ⊎ (c ≡ 0xe0) ⊎ (c ≡ 0xe1) ⊎ (c % 128 < 0x59)
      → IsState k.state
      → (k.state ≢ 0 → k.state ≢ 0xe0 → Next k again)
      → Next k (ladder c k again)
  unfolding ladder
  ladder-Next reads st rest =
      if-Next _ (λ e. (k, c, idle, prefix e, refl))
        λ e0.
          if-Next (k.state == 0x45 && c == 0xe1) (λ e. (k, 0x2e1, idle, omega arith, refl))
            λ e1.
              if-Next (k.state == 0x9d && c == 0xc5)
                (λ e. (
                  enqueue_key k Keys.key_pause,
                  0,
                  key _ (omega arith) (omega arith),
                  inl refl,
                  refl,
                ))
                λ e2.
                  if-Next (k.state == 0xe02a && c == 0xe0)
                    (λ e. (k, 0x2ae0, idle, omega arith, refl))
                    λ e3.
                      if-Next (k.state == 0x2ae0 && c == 0x37)
                        (λ e. (
                          enqueue_key k Keys.key_prtsc,
                          0,
                          key _ (omega arith) (omega arith),
                          inl refl,
                          refl,
                        ))
                        λ e4.
                          if-Next (k.state == 0xe0 && c == 0x2a)
                            (λ e. (k, 0xe02a, idle, omega arith, refl))
                            λ e5.
                              if-Next (k.state == 0xe0)
                                (λ e. (extended c k, 0, extended-Effect k bits c, inl refl, refl))
                                λ e6.
                                  if-Next (k.state == 0)
                                    (λ e. plain-Next c k bits small (inside e0 e6 e))
                                    λ e7. rest (ground arith) (ground arith)
    where
      prefix : is_prefix k.state c ≡ true → IsState c
      prefix e = unfold is_prefix in ground arith

      inside :
          is_prefix k.state c ≡ false
          → (k.state == 0xe0) ≡ false
          → (k.state == 0) ≡ true
          → c % 128 < 0x59
      inside e f g = unfold is_prefix in ground arith

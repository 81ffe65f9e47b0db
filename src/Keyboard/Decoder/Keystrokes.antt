-- ===== src/Keyboard/Decoder/Keystrokes.antt =====
-- Whole keystrokes: the codes that a keyboard sends for one key, and what they come to.
use frog_os.Base.{ℕ, ◌+◌, ◌<◌, ◌≡◌, ◌≢◌, refl, ◌∙◌, ap, Bool, true, false, arith, inl, inr}
use frog_os.Base.{List, [], ◌∷◌, bit_and, bit_or, ◌==◌, all_below, eq_below}
use frog_os.Base.{
  Bool-cases, get_or, get_elem?-eq-get_or, bit_and_mask, ltb, at_all_below, ◌&&◌, ◌||◌, not32,
}
use frog_os.Base.{not}
use frog_os.Keyboard.Keys
use frog_os.Keyboard.Scancodes.{scancodes, shift_scancodes}
use frog_os.Keyboard.Decoder.{Kbd, Outcome, done, overrun, out_of_fuel, goto, enqueue_key, plain}
use frog_os.Keyboard.Decoder.{is_prefix, ladder, decode, make, break, make_table, extended}
use frog_os.Keyboard.Decoder.Invariant.{high_bit, make_table-length}

-- The decoder with one bit of the shift state clear.
abbrev pub cleared : Kbd → ℕ → Kbd
cleared k bit = record k { shiftstate = bit_and k.shiftstate (not32 bit) }

-- The keyboard interrupts of a sequence of scan codes.
abbrev and_then : Outcome → (Kbd → Outcome) → Outcome
and_then (done k) f = f k
and_then overrun f = overrun
and_then out_of_fuel f = out_of_fuel

pub decode_all : List ℕ → Kbd → Outcome
decode_all [] k = done k
decode_all (c ∷ cs) k = and_then (decode c k) (decode_all cs)

decode_two :
    (c d : ℕ) (k : Kbd) {k' k'' : Kbd}
    → decode c k ≡ done k'
    → decode d k' ≡ done k''
    → decode_all (c ∷ d ∷ []) k ≡ done k''
unfolding decode_all
decode_two c d k p q = rw (p, q)

-- In the state 0, the six codes of Pause, and the four of Print Screen, queue their key once, with
-- the shift state above it, and change nothing else.
pub decode_long :
    (k : Kbd)
    → k.state ≡ 0
    → (decode_all (0xe1 ∷ 0x1d ∷ 0x45 ∷ 0xe1 ∷ 0x9d ∷ 0xc5 ∷ []) k
        ≡ done (enqueue_key k Keys.key_pause))
      × (decode_all (0xe0 ∷ 0x2a ∷ 0xe0 ∷ 0x37 ∷ []) k ≡ done (enqueue_key k Keys.key_prtsc))
unfolding decode_all decode ladder is_prefix enqueue_key
decode_long k e = (ground arith, ground arith)

-- In the state 0 every other code goes to the tables.
decode-plain : (c : ℕ) (k : Kbd) → k.state ≡ 0 → c ≢ 0xe0 → c ≢ 0xe1 → decode c k ≡ plain c k
unfolding decode ladder is_prefix
decode-plain c k e n m = ground arith

plain-make :
    (c : ℕ) (k : Kbd) → c < 0x59 → plain c k ≡ done (goto (make (get_or (make_table k) c 0) k) 0)
unfolding plain
plain-make c k h =
    let low : (bit_and c 0x80 == 0) ≡ true = ground (arith, high_bit c (omega arith)) in
    let r = get_elem?-eq-get_or (make_table k) c 0 (omega (arith, make_table-length k)) in
    rw (low, r)

plain-break :
    (c : ℕ) (k : Kbd)
    → c < 0x59
    → plain (c + 128) k ≡ done (goto (break (get_or scancodes c 0) k) 0)
unfolding plain
plain-break c k h =
    let high : (bit_and (c + 128) 0x80 == 0) ≡ false =
      ground (arith, high_bit (c + 128) (omega arith)) in
    let code : bit_and (c + 128) 0x7f ≡ c = omega (arith, bit_and_mask 7 (c + 128)) in
    rw (high, code, get_elem?-eq-get_or scancodes c 0 (omega arith))

-- A table entry for a key that is neither missing nor a modifier.
unfoldable pub is_ordinary : ℕ → Bool
is_ordinary d = ltb 0 d && (ltb d Keys.key_leftctrl || ltb Keys.key_capslock d)

abbrev both_ordinary : ℕ → Bool
both_ordinary c =
    not (is_ordinary (get_or scancodes c 0)) || is_ordinary (get_or shift_scancodes c 0)

both_ordinary_table : all_below 0x59 both_ordinary ≡ true
unfolding is_ordinary all_below
both_ordinary_table = refl

table-is_ordinary :
    (c : ℕ) (k : Kbd)
    → c < 0x59
    → is_ordinary (get_or scancodes c 0) ≡ true
    → is_ordinary (get_or (make_table k) c 0) ≡ true
unfolding make_table
table-is_ordinary c k h o = elim (Bool-cases (bit_and k.shiftstate Keys.kbd_shift == 0)) [
  | inl e ↦ rw e o
  | inr e ↦ rw e (rw o at (at_all_below 0x59 both_ordinary c both_ordinary_table h))
]

make_ordinary : (d : ℕ) (k : Kbd) → is_ordinary d ≡ true → make d k ≡ enqueue_key k d
unfolding make is_ordinary
make_ordinary d k o = ground arith

break_ordinary : (d : ℕ) (k : Kbd) → is_ordinary d ≡ true → break d k ≡ k
unfolding break is_ordinary
break_ordinary d k o = ground arith

goto_self : (k : Kbd) → k.state ≡ 0 → goto k 0 ≡ k
goto_self k e = ground arith

enqueue_key-state : (k : Kbd) (d : ℕ) → k.state ≡ 0 → (enqueue_key k d).state ≡ 0
unfolding enqueue_key
enqueue_key-state k d e = e

press_ordinary :
    (c : ℕ) (k : Kbd)
    → k.state ≡ 0
    → c < 0x59
    → is_ordinary (get_or scancodes c 0) ≡ true
    → decode c k ≡ done (enqueue_key k (get_or (make_table k) c 0))
press_ordinary c k e h o =
    let d = get_or (make_table k) c 0 in
    decode-plain c k e (omega arith) (omega arith)
    ∙ plain-make c k h
    ∙ ap (λ j. done (goto j 0)) (make_ordinary d k (table-is_ordinary c k h o))
    ∙ ap done (goto_self (enqueue_key k d) (enqueue_key-state k d e))

release_ordinary :
    (c : ℕ) (k : Kbd)
    → k.state ≡ 0
    → c < 0x59
    → is_ordinary (get_or scancodes c 0) ≡ true
    → decode (c + 128) k ≡ done k
release_ordinary c k e h o =
    decode-plain (c + 128) k e (omega arith) (omega arith)
    ∙ plain-break c k h
    ∙ ap (λ j. done (goto j 0)) (break_ordinary (get_or scancodes c 0) k o)
    ∙ ap done (goto_self k e)

-- Pressing and releasing an ordinary key, whose code the tables hold, in the state 0 queues the entry
-- of the table that the shift state selects, once, and changes nothing else.
pub decode_ordinary :
    (c : ℕ) (k : Kbd)
    → k.state ≡ 0
    → c < 0x59
    → is_ordinary (get_or scancodes c 0) ≡ true
    → decode_all (c ∷ (c + 128) ∷ []) k ≡ done (enqueue_key k (get_or (make_table k) c 0))
unfolding decode_all
decode_ordinary c k e h o =
    let k' = enqueue_key k (get_or (make_table k) c 0) in
    decode_two c (c + 128) k (press_ordinary c k e h o)
      (release_ordinary c k' (enqueue_key-state k _ e) h o)

table_at :
    (c d : ℕ) (k : Kbd)
    → get_or scancodes c 0 ≡ d
    → get_or shift_scancodes c 0 ≡ d
    → get_or (make_table k) c 0 ≡ d
unfolding make_table
table_at c d k p q = elim (Bool-cases (bit_and k.shiftstate Keys.kbd_shift == 0)) [
  | inl e ↦ rw e p
  | inr e ↦ rw e q
]

-- A key that stands at the same place in both tables, pressed and released.
tap :
    (c d : ℕ) (k : Kbd)
    → k.state ≡ 0
    → c < 0x59
    → get_or scancodes c 0 ≡ d
    → get_or shift_scancodes c 0 ≡ d
    → decode_all (c ∷ (c + 128) ∷ []) k ≡ done (goto (break d (goto (make d k) 0)) 0)
tap c d k e h p q =
    decode_two c (c + 128) k
      (decode-plain c k e (omega arith) (omega arith)
        ∙ plain-make c k h
        ∙ ap (λ x. done (goto (make x k) 0)) (table_at c d k p q))
      (decode-plain (c + 128) (goto (make d k) 0) refl (omega arith) (omega arith)
        ∙ plain-break c (goto (make d k) 0) h
        ∙ ap (λ x. done (goto (break x (goto (make d k) 0)) 0)) p)

-- Setting a bit and clearing it is clearing it.
set_clear :
    (s bit : ℕ)
    → all_below 16 (λ x. bit_and (bit_or x bit) (not32 bit) == bit_and x (not32 bit)) ≡ true
    → s < 16
    → bit_and (bit_or s bit) (not32 bit) ≡ bit_and s (not32 bit)
set_clear s bit table h =
    eq_below 16 (λ x. bit_and (bit_or x bit) (not32 bit)) (λ x. bit_and x (not32 bit)) s table h

-- In the state 0 and with a shift state below 16, pressing and releasing a modifier queues nothing
-- and leaves its bit of the shift state clear, the others as they were: both shift keys, both
-- control keys, both alt keys.
pub decode_modifier :
    (k : Kbd)
    → k.state ≡ 0
    → k.shiftstate < 16
    → (decode_all (0x2a ∷ 0xaa ∷ []) k ≡ done (cleared k Keys.kbd_shift))
      × (decode_all (0x36 ∷ 0xb6 ∷ []) k ≡ done (cleared k Keys.kbd_shift))
      × (decode_all (0x1d ∷ 0x9d ∷ []) k ≡ done (cleared k Keys.kbd_ctrl))
      × (decode_all (0xe0 ∷ 0x1d ∷ 0xe0 ∷ 0x9d ∷ []) k ≡ done (cleared k Keys.kbd_ctrl))
      × (decode_all (0x38 ∷ 0xb8 ∷ []) k ≡ done (cleared k Keys.kbd_alt))
      × (decode_all (0xe0 ∷ 0x38 ∷ 0xe0 ∷ 0xb8 ∷ []) k ≡ done (cleared k Keys.kbd_alt))
unfolding make break all_below
decode_modifier k e h = (
  tap 0x2a Keys.key_leftshft k e (omega arith) refl refl ∙ ground (arith, shift),
  tap 0x36 Keys.key_rghtshft k e (omega arith) refl refl ∙ ground (arith, shift),
  tap 0x1d Keys.key_leftctrl k e (omega arith) refl refl ∙ ground (arith, ctrl),
  (unfold decode_all decode ladder is_prefix extended in ground (arith, ctrl)),
  tap 0x38 Keys.key_leftalt k e (omega arith) refl refl ∙ ground (arith, alt),
  (unfold decode_all decode ladder is_prefix extended in ground (arith, alt)),
)
  where
    shift : bit_and (bit_or k.shiftstate 1) (not32 1) ≡ bit_and k.shiftstate (not32 1)
    shift = set_clear k.shiftstate 1 refl h

    ctrl : bit_and (bit_or k.shiftstate 2) (not32 2) ≡ bit_and k.shiftstate (not32 2)
    ctrl = set_clear k.shiftstate 2 refl h

    alt : bit_and (bit_or k.shiftstate 4) (not32 4) ≡ bit_and k.shiftstate (not32 4)
    alt = set_clear k.shiftstate 4 refl h

-- ===== src/Keyboard/Decoder.antt =====
-- keyboard.c: `decode`, the state machine from scan codes to keys.
pub mod Effect
pub mod Invariant
pub mod Laws
pub mod Keystrokes
use frog_os.Base.{ℕ, zero, suc, Option, none, some, Bool}
use frog_os.Base.{◌&&◌, ◌||◌, bit_and, bit_or, bit_xor, u32, not32, ◌<<<◌, ◌==◌}
use frog_os.Base.{if◌then◌else◌, get_elem?, List}
use frog_os.Keyboard.Keys
use frog_os.Keyboard.Scancodes.{scancodes, shift_scancodes}
use frog_os.Keyboard.Queue.{Ring, enqueue}

-- The ring, `kbd_state` and `kbd_shiftstate`.
pub record Kbd : Type 0 where
  pub ring : Ring
  pub state : ℕ
  pub shiftstate : ℕ

-- `overrun` is a read past the end of a scan code table, which C leaves undefined.
pub data Outcome : Type 0 where
  done : Kbd → Outcome
  overrun out_of_fuel : Outcome

-- The macro `ENQUEUE`.
unfoldable pub enqueue_key : Kbd → ℕ → Kbd
enqueue_key k c = record k { ring = enqueue k.ring (bit_or (u32 (k.shiftstate <<< 8)) c) }

abbrev pub press : Kbd → ℕ → Kbd
press k bit = record k { shiftstate = bit_or k.shiftstate bit }

abbrev pub release : Kbd → ℕ → Kbd
release k bit = record k { shiftstate = bit_and k.shiftstate (not32 bit) }

abbrev pub toggle : Kbd → ℕ → Kbd
toggle k bit = record k { shiftstate = bit_xor k.shiftstate bit }

abbrev pub goto : Kbd → ℕ → Kbd
goto k s = record k { state = s }

-- The `switch` after an 0xE0 prefix.
unfoldable pub extended : ℕ → Kbd → Kbd
extended c k =
    if c == 0x1d
    then press k Keys.kbd_ctrl
    else if c == 0x38
    then press k Keys.kbd_alt
    else if c == 0x47
    then enqueue_key k Keys.key_home
    else if c == 0x48
    then enqueue_key k Keys.key_up
    else if c == 0x49
    then enqueue_key k Keys.key_pgup
    else if c == 0x4b
    then enqueue_key k Keys.key_left
    else if c == 0x4d
    then enqueue_key k Keys.key_right
    else if c == 0x4f
    then enqueue_key k Keys.key_end
    else if c == 0x50
    then enqueue_key k Keys.key_down
    else if c == 0x51
    then enqueue_key k Keys.key_pgdown
    else if c == 0x52
    then toggle k Keys.kbd_insert
    else if c == 0x53
    then enqueue_key k Keys.key_delete
    else if c == 0x5b
    then enqueue_key k Keys.key_gui
    else if c == 0x5c
    then enqueue_key k Keys.key_rghtgui
    else if c == 0x5d
    then enqueue_key k Keys.key_apps
    else if c == 0x9d
    then release k Keys.kbd_ctrl
    else if c == 0xb8
    then release k Keys.kbd_alt
    else k

-- The `switch` on a key that is made.
unfoldable pub make : ℕ → Kbd → Kbd
make decoded k =
    if decoded == Keys.key_leftctrl
    then press k Keys.kbd_ctrl
    else if decoded == Keys.key_capslock
    then toggle k Keys.kbd_shift
    else if decoded == Keys.key_leftshft || decoded == Keys.key_rghtshft
    then press k Keys.kbd_shift
    else if decoded == Keys.key_leftalt
    then press k Keys.kbd_alt
    else if decoded == 0
    then k
    else enqueue_key k decoded

-- The `switch` on a key that is released.
unfoldable pub break : ℕ → Kbd → Kbd
break decoded k =
    if decoded == Keys.key_leftctrl
    then release k Keys.kbd_ctrl
    else if decoded == Keys.key_leftshft || decoded == Keys.key_rghtshft
    then release k Keys.kbd_shift
    else if decoded == Keys.key_leftalt
    then release k Keys.kbd_alt
    else k

unfoldable pub make_table : Kbd → List ℕ
make_table k = if bit_and k.shiftstate Keys.kbd_shift == 0 then scancodes else shift_scancodes

abbrev after_read : Option ℕ → (ℕ → Kbd) → Outcome
after_read none f = overrun
after_read (some d) f = done (goto (f d) 0)

-- The branch of `kbd_state == 0`: a code below 0x80 makes a key, one above releases it.
unfoldable pub plain : ℕ → Kbd → Outcome
unfolding make_table
plain c k =
    if bit_and c 0x80 == 0
    then after_read (get_elem? (make_table k) c) (λ d. make d k)
    else after_read (get_elem? scancodes (bit_and c 0x7f)) (λ d. break d k)

-- The first condition of the ladder: codes that become the state themselves.
unfoldable pub is_prefix : ℕ → ℕ → Bool
is_prefix s c =
    (s == 0 && c == 0xe0)
    || (s == 0 && c == 0xe1)
    || (s == 0xe1 && c == 0x1d)
    || (s == 0x1d && c == 0x45)
    || (s == 0x2e1 && c == 0x9d)

-- The ladder of `decode`, with what its last branch, the recursive call, comes to.
unfoldable pub ladder : ℕ → Kbd → Outcome → Outcome
ladder c k again =
    if is_prefix k.state c
    then done (goto k c)
    else if k.state == 0x45 && c == 0xe1
    then done (goto k 0x2e1)
    else if k.state == 0x9d && c == 0xc5
    then done (goto (enqueue_key k Keys.key_pause) 0)
    else if k.state == 0xe02a && c == 0xe0
    then done (goto k 0x2ae0)
    else if k.state == 0x2ae0 && c == 0x37
    then done (goto (enqueue_key k Keys.key_prtsc) 0)
    else if k.state == 0xe0 && c == 0x2a
    then done (goto k 0xe02a)
    else if k.state == 0xe0
    then done (goto (extended c k) 0)
    else if k.state == 0
    then plain c k
    else again

unfoldable pub decode_fuel : ℕ → ℕ → Kbd → Outcome
decode_fuel zero c k = out_of_fuel
decode_fuel (suc fuel) c k = let again = decode_fuel fuel c (goto k 0) in ladder c k again

-- Two calls are enough: the second finds the state 0.
unfoldable pub decode : ℕ → Kbd → Outcome
unfolding decode_fuel
decode c k = decode_fuel 2 c k

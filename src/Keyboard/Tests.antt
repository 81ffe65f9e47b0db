-- ===== src/Keyboard/Tests.antt =====
-- The keyboard's theorems at concrete inputs, and runs of the code.
use frog_os.Base.{◌≡◌, ◌≢◌, refl, arith, inl, inr, [], ◌∷◌, true, replicate}
use frog_os.Keyboard.Keys
use frog_os.Keyboard.Fifo
use frog_os.Keyboard.Fifo.{Op, put, get}
use frog_os.Keyboard.Queue.{Ring}
use frog_os.Keyboard.Queue.Refine.{IsValid, contents, run, run_refines}
use frog_os.Keyboard.Decoder.{
  Kbd, done, overrun, out_of_fuel, goto, ladder, decode, enqueue_key, make_table,
}
use frog_os.Keyboard.Decoder.Invariant.{IsWell, AtMostOneKey}
use frog_os.Keyboard.Decoder.Laws.{decode_ends, decode-IsWell, decode-overrun}
use frog_os.Keyboard.Decoder.Keystrokes.{
  decode_all, decode_long, decode_ordinary, decode_modifier, is_ordinary, cleared,
}

-- Two keys at the end of the buffer, the next one goes to its start.
abbrev two_keys : Ring
two_keys = record { buffer = replicate 128 7; size = 2; head = 126; tail = 0 }

two_keys-IsValid : IsValid two_keys
two_keys-IsValid = omega arith

run_refines_example :
    let (cs, r) = run two_keys true (put 5 ∷ get ∷ get ∷ get ∷ get ∷ []) in
    ((cs, contents r) ≡ Fifo.run (7 ∷ 7 ∷ []) (put 5 ∷ get ∷ get ∷ get ∷ get ∷ [])) × IsValid r
run_refines_example =
    run_refines (put 5 ∷ get ∷ get ∷ get ∷ get ∷ []) two_keys true two_keys-IsValid

-- The decoder at rest, with shift held.
abbrev shifted : Kbd
shifted = record { ring = two_keys; state = 0; shiftstate = 1 }

shifted-IsWell : IsWell shifted
shifted-IsWell = record { ring = two_keys-IsValid; bits = omega arith; state = inl refl }

decode-IsWell_example :
    (k : Kbd) × (decode 0x1e shifted ≡ done k) × IsWell k × AtMostOneKey shifted k
decode-IsWell_example =
    decode-IsWell 0x1e shifted shifted-IsWell (omega arith) (inr (inr (inr (omega arith))))

decode-overrun_example : decode 0x60 shifted ≡ overrun
decode-overrun_example =
    decode-overrun 0x60 shifted shifted-IsWell (omega arith) (omega arith) (omega arith)
      (omega arith) (omega arith)

abbrev in_pause : Kbd
in_pause = record shifted { state = 0x45 }

decode_ends_example :
    (decode 0x1e in_pause ≡ ladder 0x1e in_pause (decode 0x1e (goto in_pause 0)))
    × (decode 0x1e in_pause ≢ out_of_fuel)
decode_ends_example = decode_ends 0x1e in_pause

decode_ordinary_example : decode_all (0x1e ∷ 0x9e ∷ []) shifted ≡ done (enqueue_key shifted b'A')
unfolding make_table
decode_ordinary_example =
    decode_ordinary 0x1e shifted refl (omega arith) (unfold is_ordinary in refl)

decode_long_example :
    (decode_all (0xe1 ∷ 0x1d ∷ 0x45 ∷ 0xe1 ∷ 0x9d ∷ 0xc5 ∷ []) shifted
      ≡ done (enqueue_key shifted Keys.key_pause))
    × (decode_all (0xe0 ∷ 0x2a ∷ 0xe0 ∷ 0x37 ∷ []) shifted
        ≡ done (enqueue_key shifted Keys.key_prtsc))
decode_long_example = decode_long shifted refl

decode_modifier_example :
    (decode_all (0x2a ∷ 0xaa ∷ []) shifted ≡ done (cleared shifted Keys.kbd_shift))
    × (decode_all (0x36 ∷ 0xb6 ∷ []) shifted ≡ done (cleared shifted Keys.kbd_shift))
    × (decode_all (0x1d ∷ 0x9d ∷ []) shifted ≡ done (cleared shifted Keys.kbd_ctrl))
    × (decode_all (0xe0 ∷ 0x1d ∷ 0xe0 ∷ 0x9d ∷ []) shifted ≡ done (cleared shifted Keys.kbd_ctrl))
    × (decode_all (0x38 ∷ 0xb8 ∷ []) shifted ≡ done (cleared shifted Keys.kbd_alt))
    × (decode_all (0xe0 ∷ 0x38 ∷ 0xe0 ∷ 0xb8 ∷ []) shifted ≡ done (cleared shifted Keys.kbd_alt))
decode_modifier_example = decode_modifier shifted refl (omega arith)

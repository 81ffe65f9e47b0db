-- ===== src/Keyboard/Scancodes.antt =====
-- include/kbd_scancode.h: what a make code of scan code set 1 stands for, without and with shift.
use frog_os.Base.{ℕ, List, [], ◌∷◌}
use frog_os.Keyboard.Keys.{
  key_capslock, key_f1, key_f10, key_f11, key_f12, key_f2, key_f3, key_f4, key_f5, key_f6, key_f7,
  key_f8, key_f9, key_leftalt, key_leftctrl, key_leftshft, key_numlock, key_rghtshft, key_scrllock,
}

abbrev pub scancodes : List ℕ
scancodes =
    0 ∷ 27 ∷ b'1' ∷ b'2' ∷ b'3' ∷ b'4' ∷ b'5' ∷ b'6' ∷ b'7' ∷ b'8' ∷ b'9' ∷ b'0' ∷ b'-' ∷ b'=' ∷ 8
    ∷ 9 ∷ b'q' ∷ b'w' ∷ b'e' ∷ b'r' ∷ b't' ∷ b'y' ∷ b'u' ∷ b'i' ∷ b'o' ∷ b'p' ∷ b'[' ∷ b']' ∷ 10
    ∷ key_leftctrl ∷ b'a' ∷ b's' ∷ b'd' ∷ b'f' ∷ b'g' ∷ b'h' ∷ b'j' ∷ b'k' ∷ b'l' ∷ b';' ∷ 39 ∷ b'`'
    ∷ key_leftshft ∷ b'|' ∷ b'z' ∷ b'x' ∷ b'c' ∷ b'v' ∷ b'b' ∷ b'n' ∷ b'm' ∷ b',' ∷ b'.' ∷ b'/'
    ∷ key_rghtshft ∷ b'*' ∷ key_leftalt ∷ 32 ∷ key_capslock ∷ key_f1 ∷ key_f2 ∷ key_f3 ∷ key_f4
    ∷ key_f5 ∷ key_f6 ∷ key_f7 ∷ key_f8 ∷ key_f9 ∷ key_f10 ∷ key_numlock ∷ key_scrllock ∷ b'7'
    ∷ b'8' ∷ b'9' ∷ b'-' ∷ b'4' ∷ b'5' ∷ b'6' ∷ b'+' ∷ b'1' ∷ b'2' ∷ b'3' ∷ b'0' ∷ b'.' ∷ 0 ∷ 0 ∷ 0
    ∷ key_f11 ∷ key_f12 ∷ []

abbrev pub shift_scancodes : List ℕ
shift_scancodes =
    0 ∷ 27 ∷ b'!' ∷ b'@' ∷ b'#' ∷ b'$' ∷ b'%' ∷ b'^' ∷ b'&' ∷ b'*' ∷ b'(' ∷ b')' ∷ b'_' ∷ b'+' ∷ 8
    ∷ 9 ∷ b'Q' ∷ b'W' ∷ b'E' ∷ b'R' ∷ b'T' ∷ b'Y' ∷ b'U' ∷ b'I' ∷ b'O' ∷ b'P' ∷ b'{' ∷ b'}' ∷ 10
    ∷ key_leftctrl ∷ b'A' ∷ b'S' ∷ b'D' ∷ b'F' ∷ b'G' ∷ b'H' ∷ b'J' ∷ b'K' ∷ b'L' ∷ b':' ∷ 34 ∷ b'~'
    ∷ key_leftshft ∷ 92 ∷ b'Z' ∷ b'X' ∷ b'C' ∷ b'V' ∷ b'B' ∷ b'N' ∷ b'M' ∷ b'<' ∷ b'>' ∷ b'?'
    ∷ key_rghtshft ∷ b'*' ∷ key_leftalt ∷ 32 ∷ key_capslock ∷ key_f1 ∷ key_f2 ∷ key_f3 ∷ key_f4
    ∷ key_f5 ∷ key_f6 ∷ key_f7 ∷ key_f8 ∷ key_f9 ∷ key_f10 ∷ key_numlock ∷ key_scrllock ∷ b'7'
    ∷ b'8' ∷ b'9' ∷ b'-' ∷ b'4' ∷ b'5' ∷ b'6' ∷ b'+' ∷ b'1' ∷ b'2' ∷ b'3' ∷ b'0' ∷ b'.' ∷ 0 ∷ 0 ∷ 0
    ∷ key_f11 ∷ key_f12 ∷ []

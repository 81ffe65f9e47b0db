-- ===== src/Console/Terminal.antt =====
-- What the screen promises: 2000 cells and one position, which moves through them row by row; at
-- the end the rows move up and the last one is blank.
use frog_os.Base.{ℕ, ◌+◌, ◌-◌, ◌*◌, ◌/◌, ◌%◌, ◌==◌, leb, if◌then◌else◌, List, [], ◌∷◌, ◌++◌, set}
use frog_os.Base.{drop, replicate}

pub record Terminal : Type 0 where
  pub cells : List ℕ
  pub pos : ℕ

-- White on black.
abbrev pub glyph : ℕ → ℕ
glyph c = 0xf00 + c

unfoldable pub scrolled : Terminal → Terminal
scrolled t =
    if t.pos == 2000
    then record { cells = drop 80 t.cells ++ replicate 80 (glyph 32); pos = 1920 }
    else t

-- Backspace, tab, carriage return, newline, a printable character; others do nothing.
unfoldable pub write : ℕ → Terminal → Terminal
write c t =
    if c == 8
    then record t { pos = if t.pos % 80 == 0 then t.pos else t.pos - 1 }
    else (if c == 9
        then record t { pos = t.pos / 8 * 8 + 8 }
        else (if c == 13
            then record t { pos = t.pos / 80 * 80 }
            else (if c == 10
                then record t { pos = t.pos / 80 * 80 + 80 }
                else (if leb 32 c
                    then record { cells = set t.cells t.pos (glyph c); pos = t.pos + 1 }
                    else t))))

unfoldable pub put : ℕ → Terminal → Terminal
unfolding write scrolled
put c t = scrolled (write c t)

unfoldable pub put_all : List ℕ → Terminal → Terminal
put_all [] t = t
put_all (c ∷ cs) t = put_all cs (put c t)

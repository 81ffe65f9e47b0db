-- ===== src/Console.antt =====
-- lib/conio.c: the text screen of 25 rows of 80 cells, and lib/strlen.c.
-- A cell is a 16-bit word, the character below its attribute. The video memory is the list of the
-- 2000 cells; the copies and fills run over whole cells, in the order of the bytes' addresses. The
-- writes to the CRT controller's ports are recorded, the latest last.
pub mod Terminal
pub mod Scroll
pub mod Refine
mod Tests
use frog_os.Base.{ℕ, zero, suc, ◌+◌, ◌-◌, ◌*◌, ◌%◌, ◌^◌, bit_and, bit_or, u8, u16, not32}
use frog_os.Base.{◌<<<◌, ◌>>>◌, leb, ◌==◌, if◌then◌else◌, List, [], ◌∷◌, ◌++◌, get_or, set}

abbrev pub attrib : ℕ
attrib = 0xf

-- A port and the byte that `outportb` writes to it.
abbrev pub PortWrite : Type 0
PortWrite = ℕ × ℕ

pub record Screen : Type 0 where
  pub video : List ℕ
  pub csr_x : ℕ
  pub csr_y : ℕ
  pub ports : List PortWrite

-- `memsetw`, and `memcpy` upwards, on cells.
unfoldable pub fill : List ℕ → ℕ → ℕ → ℕ → List ℕ
fill xs i v zero = xs
fill xs i v (suc n) = fill (set xs i v) (i + 1) v n

unfoldable pub copy : List ℕ → ℕ → ℕ → ℕ → List ℕ
copy xs dest src zero = xs
copy xs dest src (suc n) = copy (set xs dest (get_or xs src 0)) (dest + 1) (src + 1) n

unfoldable pub move_csr : Screen → Screen
move_csr s =
    let temp = s.csr_y * 80 + s.csr_x in
    record s {
      ports =
          s.ports ++ ((0x3d4, 14) ∷ (0x3d5, u8 (temp >>> 8)) ∷ (0x3d4, 15) ∷ (0x3d5, u8 temp) ∷ []);
    }

unfoldable pub cls : Screen → Screen
unfolding fill move_csr
cls s =
    move_csr
      (record s { video = fill s.video 0 (u16 (attrib <<< 8)) (80 * 25); csr_x = 0; csr_y = 0 })

unfoldable pub blank : ℕ
blank = bit_or 0x20 (attrib <<< 8)

unfoldable pub scroll : Screen → Screen
scroll s =
    if leb 25 s.csr_y
    then (let temp = s.csr_y - 25 + 1 in
        let moved = copy s.video 0 (temp * 80) ((25 - temp) * 80) in
        record s { video = fill moved ((25 - temp) * 80) blank 80; csr_y = 25 - 1 })
    else s

-- The branches of `putch` on the character.
unfoldable pub put_char : ℕ → Screen → Screen
put_char c s =
    if c == 0x08
    then record s { csr_x = if s.csr_x == 0 then 0 else s.csr_x - 1 }
    else (if c == 0x09
        then record s { csr_x = bit_and (s.csr_x + 8) (not32 7) }
        else (if c == 13
            then record s { csr_x = 0 }
            else (if c == 10
                then record s { csr_x = 0; csr_y = s.csr_y + 1 }
                else (if leb 32 c
                    then record s {
                      video = set s.video (s.csr_y * 80 + s.csr_x) (u16 (bit_or c (attrib <<< 8)));
                      csr_x = s.csr_x + 1;
                    }
                    else s))))

-- The cursor at the edge of the screen's width goes to the next row.
unfoldable pub wrap : Screen → Screen
wrap s = if leb 80 s.csr_x then record s { csr_x = 0; csr_y = s.csr_y + 1 } else s

unfoldable pub putch : ℕ → Screen → Screen
unfolding put_char wrap scroll move_csr
putch c s = move_csr (scroll (wrap (put_char c s)))

-- The bytes before the first 0, which the array holds.
unfoldable pub strlen : List ℕ → ℕ
strlen [] = 0
strlen (c ∷ cs) = if c == 0 then 0 else strlen cs + 1

-- The loop of `puts` at the index `i`, with the rounds that are left.
unfoldable pub puts_from : ℕ → ℕ → List ℕ → Screen → Screen
puts_from zero i text s = s
puts_from (suc n) i text s = puts_from n (i + 1) text (putch (get_or text i 0) s)

unfoldable pub puts : List ℕ → Screen → Screen
puts text s = puts_from (strlen text) 0 text s
